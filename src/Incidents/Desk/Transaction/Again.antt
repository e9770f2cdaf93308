-- ===== src/Incidents/Desk/Transaction/Again.antt =====
-- `ingest_target` of src/platform_ops/incidents/desk.py: what an ingest keeps, and that a second one does nothing.
use data_platform_ops.Prelude.{
  All-intro, ℕ, String, Bool, true, false, not, Option, List, [], ◌∷◌, ◌++◌, ◌≡◌, refl, sym, ap,
  subst, map, contains, contains-append, eq_self, All, arith, Bool-cases, inl, inr, if◌then◌else◌,
}
use mathlib.Core.List.{map-append}
use data_platform_ops.Metadata.Graph.{Networkx}
use data_platform_ops.Incidents.Ingest.{Artifact}
use data_platform_ops.Incidents.Policy.{Moment}
use data_platform_ops.Incidents.Desk.Tables.{
  Notice, Store, ok, Ensures, ensured, failed, Ensures->>=, Ensures-if, Ensures-ok, Ensures-map,
}
use data_platform_ops.Incidents.Desk.Context.{Context}
use data_platform_ops.Incidents.Desk.Writes.Numbers.{
  IsNumbered, numbers-ByFiling, invocations-ByFiling, numbers-IsKept, invocations-IsKept,
}
use data_platform_ops.Incidents.Desk.Regroup.Kept.{regroup-Kept}
use data_platform_ops.Incidents.Desk.Transaction.{
  invocation_ids, record_artifact, when_detected, record_all, fresh_of, Ingested, nothing_new,
  ingest_fresh, ingest_some, ingest_target, detected_at,
}

known : Store → Artifact → Bool
known s a = contains a.invocation_id (invocation_ids s)

Knows : Store → Store → Type 0
Knows before after = (a : Artifact) → known before a ≡ true → known after a ≡ true

contains-snoc :
    (x y : String) (ys : List String) → contains x ys ≡ true → contains x (ys ++ (y ∷ [])) ≡ true
contains-snoc x y ys h = ground (arith, contains-append x ys (y ∷ []))

contains-last : (x : String) (ys : List String) → contains x (ys ++ (x ∷ [])) ≡ true
contains-last x ys = ground (arith, contains-append x ys (x ∷ []), eq_self x)

record_artifact-lem :
    (context : Context) (a : Artifact) (run_id : String) (at : ℕ) (s : Store)
    → Ensures
        (λ s'.
          Knows s s' × (known s' a ≡ true) × (IsNumbered 0 s.incidents → IsNumbered 0 s'.incidents))
        (record_artifact context a run_id at s)
unfolding record_artifact invocation_ids known Knows
record_artifact-lem context a run_id at s = Ensures-if _ (failed _) (
    ensured _ (
      (λ b h.
          subst (λ ids. contains b.invocation_id ids ≡ true)
            (sym (map-append (λ i. i.invocation_id) s.invocations _))
            (contains-snoc b.invocation_id a.invocation_id _ h)),
      subst (λ ids. contains a.invocation_id ids ≡ true)
          (sym (map-append (λ i. i.invocation_id) s.invocations _))
          (contains-last a.invocation_id _),
      (λ p. p),
    ))

record_all-lem :
    (context : Context) (run_id : String) (at : Option Moment) (fresh : List Artifact) (s : Store)
    → Ensures
        (λ s'.
          Knows s s'
          × All (λ a. known s' a ≡ true) fresh
          × (IsNumbered 0 s.incidents → IsNumbered 0 s'.incidents))
        (record_all context run_id at fresh s)
unfolding record_all Knows
record_all-lem context run_id at [] s = ensured s ((λ a h. h), tt, λ p. p)
record_all-lem context run_id at (a ∷ fresh) s =
    Ensures->>= (record_artifact-lem context a run_id (when_detected at a) s) (λ s1 first.
      Ensures-map (record_all-lem context run_id at fresh s1) (λ s2 rest.
        ((λ b h. rest.0 b (first.0 b h)), (rest.0 a first.1, rest.1), (λ p. rest.2 (first.2 p)))))

-- What a store that has recorded the artifacts holds.
fresh_of-none :
    (s : Store) (artifacts : List Artifact)
    → All (λ a. known s a ≡ true) artifacts
    → fresh_of s artifacts ≡ []
unfolding fresh_of known
fresh_of-none s [] h = refl
fresh_of-none s (a ∷ artifacts) h = ground (arith, fresh_of-none s artifacts h.1, h.0)

fresh_of-known :
    (s s' : Store) (a : Artifact) (artifacts : List Artifact)
    → known s a ≡ true
    → All (λ b. known s' b ≡ true) (fresh_of s (a ∷ artifacts))
    → All (λ b. known s' b ≡ true) (fresh_of s artifacts)
unfolding fresh_of known
fresh_of-known s s' a artifacts e =
    subst
      (λ b.
        All (λ b. known s' b ≡ true)
          (if not b then a ∷ fresh_of s artifacts else fresh_of s artifacts)
        → All (λ b. known s' b ≡ true) (fresh_of s artifacts))
      (sym e) (λ h. h)

fresh_of-new :
    (s s' : Store) (a : Artifact) (artifacts : List Artifact)
    → known s a ≡ false
    → All (λ b. known s' b ≡ true) (fresh_of s (a ∷ artifacts))
    → (known s' a ≡ true) × All (λ b. known s' b ≡ true) (fresh_of s artifacts)
unfolding fresh_of known
fresh_of-new s s' a artifacts e =
    subst
      (λ b.
        All (λ b. known s' b ≡ true)
          (if not b then a ∷ fresh_of s artifacts else fresh_of s artifacts)
        → (known s' a ≡ true) × All (λ b. known s' b ≡ true) (fresh_of s artifacts))
      (sym e) (λ h. h)

fresh_of-All :
    (s s' : Store) (artifacts : List Artifact)
    → Knows s s'
    → All (λ a. known s' a ≡ true) (fresh_of s artifacts)
    → All (λ a. known s' a ≡ true) artifacts
unfolding fresh_of Knows
fresh_of-All s s' [] knows h = tt
fresh_of-All s s' (a ∷ artifacts) knows h = elim (Bool-cases (known s a)) [
  | inl e ↦ (knows a e, fresh_of-All s s' artifacts knows (fresh_of-known s s' a artifacts e h))
  | inr e ↦
      let both = fresh_of-new s s' a artifacts e h in
      (both.0, fresh_of-All s s' artifacts knows both.1)
]

module _ (nx : Networkx) (fnmatchcase : String → String → Bool) (max_open_per_person : ℕ)
    (calendar : ℕ → Moment) (deliver : Notice → String) (context : Context) (run_id : String)
    (at : Option Moment) where
  -- What an ingest of new artifacts leaves.
  ingest_fresh-known :
      (fresh : List Artifact) (s : Store)
      → Ensures
          (λ done. Knows s (done.store) × All (λ a. known (done.store) a ≡ true) fresh)
          (ingest_fresh nx fnmatchcase max_open_per_person calendar deliver context run_id at fresh
            s)
  unfolding ingest_fresh known invocation_ids Knows
  ingest_fresh-known fresh s =
      Ensures->>= (record_all-lem context run_id at fresh s) (λ s1 recorded.
        Ensures->>=
          (regroup-Kept nx fnmatchcase max_open_per_person context _
            (invocations-IsKept nx fnmatchcase max_open_per_person s1.invocations)
            (invocations-ByFiling s1.invocations) run_id
            (detected_at nx fnmatchcase max_open_per_person calendar deliver at fresh) s1
            (All-intro _ _ (λ i. ((λ well. tt), (λ by_it. tt)))) refl)
          (λ done kept. ensured _ (
            subst
              (λ ids.
                ((a : Artifact)
                  → contains a.invocation_id (map (λ i. i.invocation_id) s.invocations) ≡ true
                  → contains a.invocation_id (map (λ i. i.invocation_id) ids) ≡ true)
                × All (λ a. contains a.invocation_id (map (λ i. i.invocation_id) ids) ≡ true) fresh)
              (sym kept) (recorded.0, recorded.1))))

  ingest_fresh-IsNumbered :
      (fresh : List Artifact) (s : Store)
      → IsNumbered 0 s.incidents
      → Ensures
          (λ done. IsNumbered 0 (done.store).incidents)
          (ingest_fresh nx fnmatchcase max_open_per_person calendar deliver context run_id at fresh
            s)
  unfolding ingest_fresh
  ingest_fresh-IsNumbered fresh s p =
      Ensures->>= (record_all-lem context run_id at fresh s) (λ s1 recorded.
        Ensures->>=
          (regroup-Kept nx fnmatchcase max_open_per_person context _
            (numbers-IsKept nx fnmatchcase max_open_per_person) numbers-ByFiling run_id
            (detected_at nx fnmatchcase max_open_per_person calendar deliver at fresh) s1
            (All-intro _ _ (λ i. ((λ well. tt), (λ by_it. tt)))) (recorded.2 p))
          (λ done kept. ensured _ kept))

  ingest_some-known :
      (fresh : List Artifact) (s : Store)
      → Ensures
          (λ done. Knows s (done.store) × All (λ a. known (done.store) a ≡ true) fresh)
          (ingest_some nx fnmatchcase max_open_per_person calendar deliver context run_id at fresh
            s)
  unfolding ingest_some Knows
  ingest_some-known [] s = ensured _ ((λ a h. h), tt)
  ingest_some-known (a ∷ fresh) s = ingest_fresh-known (a ∷ fresh) s

  ingest_some-IsNumbered :
      (fresh : List Artifact) (s : Store)
      → IsNumbered 0 s.incidents
      → Ensures
          (λ done. IsNumbered 0 (done.store).incidents)
          (ingest_some nx fnmatchcase max_open_per_person calendar deliver context run_id at fresh
            s)
  unfolding ingest_some
  ingest_some-IsNumbered [] s p = ensured _ p
  ingest_some-IsNumbered (a ∷ fresh) s p = ingest_fresh-IsNumbered (a ∷ fresh) s p

  -- Where the numbers of the incidents ascend, they still do after an ingest that succeeds, so that no two incidents
  -- share an id.
  pub ingest_target-IsNumbered :
      (artifacts : List Artifact) (s : Store) (done : Ingested)
      → IsNumbered 0 s.incidents
      → ingest_target nx fnmatchcase max_open_per_person calendar deliver context artifacts run_id
          at s
        ≡ ok done
      → IsNumbered 0 (done.store).incidents
  unfolding ingest_target
  ingest_target-IsNumbered artifacts s done p h =
      Ensures-ok (ingest_some-IsNumbered (fresh_of s artifacts) s p) h

  -- After an ingest that succeeds, ingesting the same artifacts again, as any run and at any time, succeeds, reports
  -- nothing new and leaves the store as it was.
  pub ingest_target-again :
      (artifacts : List Artifact) (s : Store) (done : Ingested) (later_run : String)
      (later : Option Moment)
      → ingest_target nx fnmatchcase max_open_per_person calendar deliver context artifacts run_id
          at s
        ≡ ok done
      → ingest_target nx fnmatchcase max_open_per_person calendar deliver context artifacts
          later_run later
          (done.store)
        ≡ ok (record { store = done.store; result = nothing_new later_run })
  unfolding ingest_target ingest_some
  ingest_target-again artifacts s done later_run later h =
      let after = Ensures-ok (ingest_some-known (fresh_of s artifacts) s) h in
      let gone : fresh_of (done.store) artifacts ≡ [] =
        fresh_of-none (done.store) artifacts
          (fresh_of-All s (done.store) artifacts after.0 after.1) in
      ap
        (λ fresh.
          ingest_some nx fnmatchcase max_open_per_person calendar deliver context later_run later
            fresh (done.store))
        gone
