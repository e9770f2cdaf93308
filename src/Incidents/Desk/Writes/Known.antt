-- ===== src/Incidents/Desk/Writes/Known.antt =====
-- Numbers of incidents through the writes of src/platform_ops/incidents/desk.py: once given, they stay in the store.
use data_platform_ops.Prelude.{
  ℕ, String, Bool, true, ◌≡◌, inl, inr, refl, arith, List, [], ◌∷◌, ◌++◌, All, All-map_of, any_of,
  eqb, Bool-cases,
}
use data_platform_ops.Metadata.Graph.{Networkx}
use data_platform_ops.Incidents.Desk.Tables.{
  Incident, EventRow, ensured, failed, Ensures-if, update_incident,
}
use data_platform_ops.Incidents.Desk.Open.{open_incident, set_resolution}
use data_platform_ops.Incidents.Desk.Writes.{IsKept, Anyhow}

-- Some incident has the number.
abbrev pub numbered : ℕ → List Incident → Bool
numbered n is = any_of (λ i. eqb i.seq n) is

pub numbered-append :
    (n : ℕ) (is : List Incident) (i : Incident)
    → numbered n is ≡ true
    → numbered n (is ++ (i ∷ [])) ≡ true
numbered-append n [] i h = ground arith
numbered-append n (j ∷ is) i h = ground (arith, numbered-append n is i)

pub numbered_last : (is : List Incident) (i : Incident) → numbered i.seq (is ++ (i ∷ [])) ≡ true
numbered_last [] i = ground arith
numbered_last (j ∷ is) i = ground (arith, numbered_last is i)

pub numbered-update_incident :
    (n : ℕ) (f : Incident → Incident) (seq : ℕ) (is : List Incident)
    → ((i : Incident) → (f i).seq ≡ i.seq)
    → numbered n is ≡ true
    → numbered n (update_incident f seq is) ≡ true
unfolding update_incident
numbered-update_incident n f seq [] same h = ground arith
numbered-update_incident n f seq (i ∷ is) same h = elim (Bool-cases (eqb i.seq seq)) [
  | inl e ↦ rw e (ground (arith, same i, numbered-update_incident n f seq is same))
  | inr ne ↦ rw ne (ground (arith, numbered-update_incident n f seq is same))
]

-- Every number has its incident in the store.
abbrev pub Known : List Incident → List ℕ → Type 0
Known is ns = All (λ n. numbered n is ≡ true) ns

module _ (nx : Networkx) (fnmatchcase : String → String → Bool) (max_open_per_person : ℕ) where
  -- The events' rows are left alone, and known numbers stay known.
  pub rows-IsKept :
      (rows : List EventRow) (ns : List ℕ)
      → IsKept nx fnmatchcase max_open_per_person Anyhow
          (λ s. (s.check_events ≡ rows) × Known s.incidents ns)
  unfolding open_incident set_resolution
  rows-IsKept rows ns = record {
    by_open = λ context group run_id at s p. Ensures-if _ (failed _) (
        ensured _ (
          p.0,
          All-map_of (λ n. numbered n s.incidents ≡ true) _ ns
              (λ n h. numbered-append n s.incidents _ h) p.1,
        ));
    by_resolve = λ i at run_id s u p. ensured _ (
      p.0,
      All-map_of (λ n. numbered n s.incidents ≡ true) _ ns
          (λ n h. numbered-update_incident n _ i.seq s.incidents (λ j. refl) h) p.1,
    );
    by_reopen = λ i s u p. Ensures-if _ (failed _) (
        ensured _ (
          p.0,
          All-map_of (λ n. numbered n s.incidents ≡ true) _ ns
              (λ n h. numbered-update_incident n _ i.seq s.incidents (λ j. refl) h) p.1,
        ));
    by_merge = λ into seq s p. (
      p.0,
      All-map_of (λ n. numbered n s.incidents ≡ true) _ ns
          (λ n h. numbered-update_incident n _ seq s.incidents (λ j. refl) h) p.1,
    );
    by_raise = λ severity escalations seq s p. (
      p.0,
      All-map_of (λ n. numbered n s.incidents ≡ true) _ ns
          (λ n h. numbered-update_incident n _ seq s.incidents (λ j. refl) h) p.1,
    );
    by_links = λ links shared s p. p;
    by_notices = λ notices s p. p;
  }
