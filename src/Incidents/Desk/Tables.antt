-- ===== src/Incidents/Desk/Tables.antt =====
-- The tables of src/platform_ops/incidents/store.py that the desk reads and writes, one list of rows each. An
-- incident's id `INC-{seq:03d}` is its number `seq`. A message's text is a value of `Text`, an
-- escalation's reason a value of `Reason`. A write that breaks a key or the index
-- `incidents_one_open_per_root` raises, and the transaction is rolled back: `err`.
use data_platform_ops.Prelude.{
  ℕ, String, Bool, true, false, ◌&&◌, ◌||◌, Option, none, some, List, [], ◌∷◌, if◌then◌else◌, ◌==◌,
  eqb, max, ◌≡◌, refl, subst, ap,
}
use data_platform_ops.Metadata.Lineage.{Tier}
use data_platform_ops.Incidents.Events.{CheckEvent}
use data_platform_ops.Incidents.Ingest.{Kind}
use data_platform_ops.Incidents.Policy.{Severity, sev1, sev2, sev3}

pub data Failure : Type 0 where
  duplicate_key two_open_per_root missing_key recursion_limit : Failure

pub data Result {ℓ} (A : Type ℓ) : Type ℓ where
  ok : A → Result A
  err : Failure → Result A

infixl 5 ◌>>=◌
abbrev pub ◌>>=◌ {ℓ κ} : {A : Type ℓ} {B : Type κ} → Result A → (A → Result B) → Result B
ok a >>= f = f a
err e >>= f = err e

-- What holds of the value, if there is one.
pub data Ensures {A : Type 0} (P : A → Type 0) : Result A → Type 0 where
  ensured : (a : A) → P a → Ensures P (ok a)
  failed : (e : Failure) → Ensures P (err e)

module _ {A : Type 0} {P : A → Type 0} where
  pub Ensures->>= :
      {B : Type 0} {Q : B → Type 0} {m : Result A} {f : A → Result B}
      → Ensures P m
      → ((a : A) → P a → Ensures Q (f a))
      → Ensures Q (m >>= f)
  Ensures->>= (ensured a p) h = h a p
  Ensures->>= (failed e) h = failed e

  pub Ensures-if :
      (b : Bool) {m n : Result A} → Ensures P m → Ensures P n → Ensures P (if b then m else n)
  Ensures-if true p q = p
  Ensures-if false p q = q

  pub Ensures-when :
      (b : Bool) {m n : Result A}
      → (b ≡ true → Ensures P m)
      → Ensures P n
      → Ensures P (if b then m else n)
  Ensures-when true p q = p refl
  Ensures-when false p q = q

  pub Ensures-map :
      {Q : A → Type 0} {m : Result A} → Ensures P m → ((a : A) → P a → Q a) → Ensures Q m
  Ensures-map (ensured a p) h = ensured a (h a p)
  Ensures-map (failed e) h = failed e

  pub Ensures-ok : {m : Result A} {a : A} → Ensures P m → m ≡ ok a → P a
  Ensures-ok (ensured a p) h = subst P (ap (λ m. elim m [ ok x ↦ x | err e ↦ a ]) h) p
  Ensures-ok (failed e) h = cc

pub Ensures-any : {A : Type 0} (m : Result A) → Ensures (λ a. ok a ≡ m) m
Ensures-any (ok a) = ensured a refl
Ensures-any (err e) = failed e

pub record Invocation : Type 0 where
  pub invocation_id : String
  pub run_id : String
  pub kind : Kind
  pub detected_at : ℕ
  pub checks_run : ℕ

pub record ResultRow : Type 0 where
  pub invocation_id : String
  pub run_id : String
  pub unique_id : String
  pub resource_type : String
  pub status : String

pub record EventRow : Type 0 where
  pub invocation_id : String
  pub event : CheckEvent
  pub incident : Option ℕ

pub record Incident : Type 0 where
  pub seq : ℕ
  pub root : String
  pub dataset : String
  pub severity : Severity
  pub score : ℕ
  pub root_tier : Tier
  pub owner : String
  pub team : String
  pub naive_owner : String
  pub naive_team : String
  pub routed_via : String
  pub opened_at : ℕ
  pub opened_by_run : String
  pub resolved_at : Option ℕ
  pub resolved_by_run : Option String
  pub merged_into : Option ℕ
  pub previous_incident : Option ℕ
  -- coalesce(paged, owner)
  pub paged : String

pub record RunLink : Type 0 where
  pub incident : ℕ
  pub run_id : String
  pub at : ℕ
  pub checks : ℕ

pub record SharedNode : Type 0 where
  pub incident : ℕ
  pub run_id : String
  pub node : String

pub data Reason : Type 0 where
  open_hours : ℕ → Severity → Reason
  window_in : String → ℕ → ℕ → Reason

pub record Escalation : Type 0 where
  pub incident : ℕ
  pub run_id : String
  pub at : ℕ
  pub from_severity : Severity
  pub to_severity : Severity
  pub reason : Reason

pub data NoticeKind : Type 0 where
  page update resolved escalation : NoticeKind

pub data Text : Type 0 where
  failing_at : ℕ → String → Text
  still_failing : ℕ → String → Text
  healthy_in : String → String → Text
  raised_to : Severity → Reason → Text

pub record Notice : Type 0 where
  pub incident : ℕ
  pub kind : NoticeKind
  pub run_id : String
  pub recipient : String
  pub team : String
  pub severity : Severity
  pub text : Text
  pub sent_at : ℕ
  pub delivered : Option String

pub record Store : Type 0 where
  pub invocations : List Invocation
  pub results : List ResultRow
  pub check_events : List EventRow
  -- in the order of `seq`
  pub incidents : List Incident
  pub run_links : List RunLink
  pub shared_nodes : List SharedNode
  pub escalations : List Escalation
  pub notices : List Notice

abbrev pub same_severity : Severity → Severity → Bool
same_severity sev1 sev1 = true
same_severity sev2 sev2 = true
same_severity sev3 sev3 = true
same_severity _ _ = false

unfoldable pub same_reason : Reason → Reason → Bool
same_reason (open_hours n s) (open_hours m t) = eqb n m && same_severity s t
same_reason (window_in w y m) (window_in w' y' m') = (w == w') && (eqb y y' && eqb m m')
same_reason _ _ = false

abbrev pub same_kind : NoticeKind → NoticeKind → Bool
same_kind page page = true
same_kind update update = true
same_kind resolved resolved = true
same_kind escalation escalation = true
same_kind _ _ = false

abbrev pub is_none {ℓ} : {A : Type ℓ} → Option A → Bool
is_none none = true
is_none (some a) = false

-- WHERE resolved_at IS NULL AND merged_into IS NULL
unfoldable pub is_open : Incident → Bool
is_open i = is_none i.resolved_at && is_none i.merged_into

-- UPDATE incidents ... WHERE incident_id = ...
unfoldable pub update_incident : (Incident → Incident) → ℕ → List Incident → List Incident
update_incident f seq [] = []
update_incident f seq (i ∷ is) = (if eqb i.seq seq then f i else i) ∷ update_incident f seq is

-- Whether another incident is open at the root: what the unique index refuses.
unfoldable pub open_at : String → List Incident → Bool
unfolding is_open
open_at root [] = false
open_at root (i ∷ is) = ((i.root == root) && is_open i) || open_at root is

-- The incidents, in order, that have the number `seq`.
unfoldable pub incident_by : ℕ → List Incident → Option Incident
incident_by seq [] = none
incident_by seq (i ∷ is) = let rest = incident_by seq is in if eqb i.seq seq then some i else rest

-- max((i.seq for i in incidents), default=0)
unfoldable pub last_seq : List Incident → ℕ
last_seq [] = 0
last_seq (i ∷ is) = max i.seq (last_seq is)
