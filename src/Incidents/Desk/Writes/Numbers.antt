-- ===== src/Incidents/Desk/Writes/Numbers.antt =====
-- The numbers of the incidents, which src/platform_ops/incidents/desk.py gives in `_open`, ascend through every write.
use data_platform_ops.Prelude.{
  ℕ, ◌<◌, String, Bool, true, false, List, [], ◌∷◌, ◌++◌, ◌≡◌, refl, sym, subst, arith, eqb,
  if◌then◌else◌,
}
use data_platform_ops.Metadata.Graph.{Networkx}
use data_platform_ops.Incidents.Desk.Tables.{
  Incident, Invocation, ensured, failed, Ensures-if, update_incident, last_seq,
}
use data_platform_ops.Incidents.Desk.Open.{new_incident, open_incident, set_resolution}
use data_platform_ops.Incidents.Desk.Writes.{IsKept, ByFiling, Anyhow}

-- Each number is above `n` and above those before it.
pub data IsNumbered : ℕ → List Incident → Type 0 where
  end : {n : ℕ} → IsNumbered n []
  then_next :
      {n : ℕ} {i : Incident} {is : List Incident}
      → n < i.seq
      → IsNumbered (i.seq) is
      → IsNumbered n (i ∷ is)

pub append-IsNumbered :
    {n : ℕ} (is : List Incident) (i : Incident)
    → IsNumbered n is
    → n < i.seq
    → last_seq is < i.seq
    → IsNumbered n (is ++ (i ∷ []))
unfolding last_seq
append-IsNumbered [] i end above last = then_next above end
append-IsNumbered (j ∷ is) i (then_next below rest) above last =
    then_next below (append-IsNumbered is i rest (omega arith) (omega arith))

update_with-IsNumbered :
    {n : ℕ} (b : Bool) (i j : Incident) (is : List Incident)
    → j.seq ≡ i.seq
    → n < i.seq
    → IsNumbered (i.seq) is
    → IsNumbered n ((if b then j else i) ∷ is)
update_with-IsNumbered true i j is e h rest =
    then_next (omega arith) (subst (λ n. IsNumbered n is) (sym e) rest)
update_with-IsNumbered false i j is e h rest = then_next h rest

pub update_incident-IsNumbered :
    {n : ℕ} (f : Incident → Incident) (seq : ℕ) (is : List Incident)
    → ((i : Incident) → (f i).seq ≡ i.seq)
    → IsNumbered n is
    → IsNumbered n (update_incident f seq is)
unfolding update_incident
update_incident-IsNumbered f seq [] same end = end
update_incident-IsNumbered f seq (i ∷ is) same (then_next below rest) =
    update_with-IsNumbered (eqb i.seq seq) i (f i) _ (same i) below
      (update_incident-IsNumbered f seq is same rest)

module _ (nx : Networkx) (fnmatchcase : String → String → Bool) (max_open_per_person : ℕ) where
  pub numbers-IsKept :
      IsKept nx fnmatchcase max_open_per_person Anyhow (λ s. IsNumbered 0 s.incidents)
  unfolding open_incident set_resolution new_incident
  numbers-IsKept = record {
    by_open = λ context group run_id at s p.
        Ensures-if _ (failed _)
          (ensured _ (append-IsNumbered s.incidents _ p (omega arith) (omega arith)));
    by_resolve = λ i at run_id s u p.
        ensured _ (update_incident-IsNumbered _ i.seq s.incidents (λ j. refl) p);
    by_reopen = λ i s u p.
        Ensures-if _ (failed _)
          (ensured _ (update_incident-IsNumbered _ i.seq s.incidents (λ j. refl) p));
    by_merge = λ into seq s p. update_incident-IsNumbered _ seq s.incidents (λ j. refl) p;
    by_raise =
        λ severity escalations seq s p. update_incident-IsNumbered _ seq s.incidents (λ j. refl) p;
    by_links = λ links shared s p. p;
    by_notices = λ notices s p. p;
  }

  -- No write of a transaction's second half touches the invocations.
  pub invocations-IsKept :
      (ids : List Invocation)
      → IsKept nx fnmatchcase max_open_per_person Anyhow (λ s. s.invocations ≡ ids)
  unfolding open_incident set_resolution
  invocations-IsKept ids = record {
    by_open = λ context group run_id at s p. Ensures-if _ (failed _) (ensured _ p);
    by_resolve = λ i at run_id s u p. ensured _ p;
    by_reopen = λ i s u p. Ensures-if _ (failed _) (ensured _ p);
    by_merge = λ into seq s p. p;
    by_raise = λ severity escalations seq s p. p;
    by_links = λ links shared s p. p;
    by_notices = λ notices s p. p;
  }

pub numbers-ByFiling : ByFiling (λ s. IsNumbered 0 s.incidents)
numbers-ByFiling = record { by_filing = λ rows s p. p }

pub invocations-ByFiling : (ids : List Invocation) → ByFiling (λ s. s.invocations ≡ ids)
invocations-ByFiling ids = record { by_filing = λ rows s p. p }
