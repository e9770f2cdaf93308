-- ===== src/Incidents/Desk/Escalate/Raised.antt =====
-- The loop over an incident's reasons in `_escalate` of src/platform_ops/incidents/desk.py only raises.
use data_platform_ops.Prelude.{
  ℕ, ◌≤◌, ◌<◌, String, Bool, true, false, List, [], ◌∷◌, All, All-map_of, All-keep, ◌≡◌, ◌⊎◌, inl,
  inr, refl, sym, ap, subst, arith, eqb, eqb_iff, if◌then◌else◌,
}
use data_platform_ops.Metadata.Graph.{Networkx}
use data_platform_ops.Incidents.Policy.{Severity, Moment, raised}
use data_platform_ops.Incidents.Policy.Scores.{rank, rank-raised}
use data_platform_ops.Incidents.Desk.Tables.{
  Incident, Escalation, Reason, Text, Store, ok, Ensures, ensured, Ensures->>=, Ensures-if,
  Ensures-any, Ensures-ok, same_severity, update_incident,
}
use data_platform_ops.Incidents.Desk.Context.{Context}
use data_platform_ops.Incidents.Desk.Writes.Numbers.{IsNumbered, then_next}
use data_platform_ops.Incidents.Desk.Escalate.{
  Raises, raise_for, reasons_for, done_for, insert_escalation, escalate_one, escalate_all, escalate,
}

raise_for-Ensures :
    (seq : ℕ) (run_id : String) (at : ℕ) (reasons : List Reason) (escalations : List Escalation)
    (current : Severity)
    → Ensures
        (λ raises. rank (raises.current) ≤ rank current)
        (raise_for seq run_id at reasons escalations current)
unfolding raise_for
raise_for-Ensures seq run_id at [] escalations current = ensured _ (omega arith)
raise_for-Ensures seq run_id at (reason ∷ reasons) escalations current =
    Ensures-if (same_severity (raised current) current) (ensured _ (omega arith)) (
      Ensures->>= (Ensures-any (insert_escalation _ escalations)) (λ inserted u.
        Ensures->>= (raise_for-Ensures seq run_id at reasons inserted (raised current))
          (λ rest h. ensured _ (omega (arith, h, rank-raised current)))))

-- The row is the incident with its severity at most raised.
abbrev pub Raised : Incident → Incident → Type 0
Raised before after =
    (after ≡ record before { severity = after.severity })
    × (rank (after.severity) ≤ rank (before.severity))

-- The incidents of the first list, in their places, at most raised.
abbrev pub AllRaised : List Incident → List Incident → Type 0
AllRaised [] [] = Unit
AllRaised (i ∷ is) (j ∷ js) = Raised i j × AllRaised is js
AllRaised _ _ = ⊥

AllRaised-self : (is : List Incident) → AllRaised is is
AllRaised-self [] = tt
AllRaised-self (i ∷ is) = ((refl, omega arith), AllRaised-self is)

abbrev Held : Incident → List Incident → Type 0
Held i [] = ⊥
Held i (k ∷ ks) = (k ≡ i) ⊎ Held i ks

Held-more : (is : List Incident) → All (λ i. Held i is) is
Held-more [] = tt
Held-more (i ∷ is) =
    (inl refl, All-map_of (λ j. Held j is) (λ j. Held j (i ∷ is)) is (λ j h. inr h) (Held-more is))

Held-above : (i : Incident) (n : ℕ) (is : List Incident) → IsNumbered n is → Held i is → n < i.seq
Held-above i n [] num h = absurd h
Held-above i n (k ∷ ks) (then_next above rest) (inl same) =
    let number = ap (λ x. x.seq) same in omega (arith, above, number)
Held-above i n (k ∷ ks) (then_next above rest) (inr later) =
    omega (arith, above, Held-above i k.seq ks rest later)

seq-Raised : (i j : Incident) → Raised i j → j.seq ≡ i.seq
seq-Raised i j r = ap (λ x. x.seq) r.0

set_severity : Severity → Incident → Incident
set_severity severity j = record j { severity = severity }

update-above :
    (severity : Severity) (m n : ℕ) (is js : List Incident)
    → IsNumbered n is
    → m ≤ n
    → AllRaised is js
    → update_incident (set_severity severity) m js ≡ js
unfolding update_incident
update-above severity m n [] [] num h all = refl
update-above severity m n [] (j ∷ js) num h all = absurd all
update-above severity m n (i ∷ is) [] num h all = absurd all
update-above severity m n (i ∷ is) (j ∷ js) (then_next above rest) h all =
    let later = update-above severity m i.seq is js rest (omega (arith, above, h)) all.1 in
    ground (arith, eqb_iff j.seq m, above, h, seq-Raised i j all.0)

pick : (b : Bool) (P : Incident → Type 0) (x y : Incident) → P x → P y → P (if b then x else y)
pick true P x y p q = p
pick false P x y p q = q

-- Writing a severity that is no lower than that of an incident from before changes this incident's row only.
update-AllRaised :
    (i : Incident) (severity : Severity) (n : ℕ) (is js : List Incident)
    → IsNumbered n is
    → Held i is
    → rank severity ≤ rank (i.severity)
    → AllRaised is js
    → AllRaised is (update_incident (set_severity severity) i.seq js)
unfolding update_incident set_severity
update-AllRaised i severity n [] js num h le all = absurd h
update-AllRaised i severity n (k ∷ ks) [] num h le all = absurd all
update-AllRaised i severity n (k ∷ ks) (j ∷ js) (then_next above rest) (inl same) le all =
    let number = ap (λ x. x.seq) same in
    let level = ap (λ x. rank (x.severity)) same in
    (
      pick (eqb j.seq i.seq) (Raised k) (record j { severity = severity }) j
          (
            ap (λ (x : Incident). record x { severity = severity }) all.0.0,
            omega (arith, le, level),
          )
          all.0,
      subst (AllRaised ks)
          (sym (update-above severity i.seq k.seq ks js rest (omega (arith, number)) all.1)) all.1,
    )
update-AllRaised i severity n (k ∷ ks) (j ∷ js) (then_next above rest) (inr later) le all =
    let after = Held-above i k.seq ks rest later in
    let other : eqb j.seq i.seq ≡ false =
      ground (arith, eqb_iff j.seq i.seq, after, seq-Raised k j all.0) in
    (
      subst (λ b. Raised k (if b then record j { severity = severity } else j)) (sym other) all.0,
      update-AllRaised i severity k.seq ks js rest later le all.1,
    )

module _ (nx : Networkx) (fnmatchcase : String → String → Bool) (context : Context)
    (run_id : String) (at : Moment) (is : List Incident) (num : IsNumbered 0 is) where
  escalate_one-AllRaised :
      (i : Incident) (s : Store)
      → Held i is
      → AllRaised is s.incidents
      → Ensures
          (λ r. AllRaised is (r.0).incidents)
          (escalate_one nx fnmatchcase context run_id at i s)
  unfolding escalate_one set_severity
  escalate_one-AllRaised i s held all =
      Ensures->>= {A = Raises} {P = λ raises. rank (raises.current) ≤ rank (i.severity)}
        (raise_for-Ensures i.seq run_id at.instant
          (reasons_for nx fnmatchcase context run_id at i (done_for i.seq s.escalations))
          s.escalations i.severity)
        (λ raises le.
          ensured _ (update-AllRaised i (raises.current) 0 is s.incidents num held le all))

  escalate_all-AllRaised :
      (some_of : List Incident) (s : Store)
      → All (λ i. Held i is) some_of
      → AllRaised is s.incidents
      → Ensures
          (λ r. AllRaised is (r.0).incidents)
          (escalate_all nx fnmatchcase context run_id at some_of s)
  unfolding escalate_all
  escalate_all-AllRaised [] s held all = ensured _ all
  escalate_all-AllRaised (i ∷ some_of) s held all =
      Ensures->>= (escalate_one-AllRaised i s held.0 all) (λ first q.
        Ensures->>= (escalate_all-AllRaised some_of (first.0) held.1 q) (λ rest r. ensured _ r))

-- Where the incidents' numbers ascend and `_escalate` succeeds, the store that it returns has the same incidents in the
-- same places, and nothing of an incident is changed but its severity, which is never lowered.
pub escalate-AllRaised :
    (nx : Networkx) (fnmatchcase : String → String → Bool) (context : Context) (run_id : String)
    (at : Moment) (s : Store) (done : Store × List (ℕ × Text))
    → IsNumbered 0 s.incidents
    → escalate nx fnmatchcase context run_id at s ≡ ok done
    → AllRaised s.incidents (done.0).incidents
unfolding escalate
escalate-AllRaised nx fnmatchcase context run_id at s done num h =
    Ensures-ok
      (escalate_all-AllRaised nx fnmatchcase context run_id at s.incidents num _ s
        (All-keep (λ i. Held i s.incidents) _ s.incidents (Held-more s.incidents))
        (AllRaised-self s.incidents))
      h
