-- ===== src/Reconcile/Cutover/First.antt =====
-- `decide` of src/platform_ops/reconcile/parallel.py against a description of what it looks for.
use data_platform_ops.Prelude.{
  ℕ, suc, ◌+◌, ◌<◌, ◌≤◌, true, false, List, [], ◌∷◌, ◌++◌, ◌≡◌, ◌↔◌, ◌⊎◌, ap, refl, sym, subst,
  arith, All, All-append, length, eqb, Bool-cases, inl, inr,
}
use mathlib.Core.List.{append_assoc}
use data_platform_ops.Reconcile.Cutover.{NightResult, clean, decide_from, decide}

-- Somewhere in the nights, `required` nights in a row were clean.
abbrev pub HasCleanRun : ℕ → List NightResult → Type 0
HasCleanRun required results =
    (before : List NightResult) × (run : List NightResult) × (after : List NightResult) × (results
      ≡ before ++ (run ++ after))
    × (length run ≡ required)
    × All (λ r. clean r ≡ true) run

decide_from-run :
    (run after : List NightResult) (required all streak : ℕ)
    → All (λ r. clean r ≡ true) run
    → streak < required
    → required ≤ streak + length run
    → (decide_from (run ++ after) required all streak).recommended ≡ true
unfolding decide_from
decide_from-run [] after required all streak h below enough = ground arith
decide_from-run (r ∷ run) after required all streak h below enough =
    elim (Bool-cases (eqb (suc streak) required)) [
      | inl e ↦ ground (arith, h.0)
      | inr e ↦
          let more = decide_from-run run after required all (suc streak) h.1 in
          ground (arith, h.0, more)
    ]

decide_from-later :
    (before run after : List NightResult) (required all streak : ℕ)
    → All (λ r. clean r ≡ true) run
    → streak < required
    → length run ≡ required
    → (decide_from (before ++ (run ++ after)) required all streak).recommended ≡ true
unfolding decide_from
decide_from-later [] run after required all streak h below enough =
    decide_from-run run after required all streak h below (omega arith)
decide_from-later (r ∷ before) run after required all streak h below enough =
    let next = decide_from-later before run after required all in
    ground (arith, next (suc streak) h, next 0 h)

prefixed-HasCleanRun :
    (required : ℕ) (first rest : List NightResult)
    → HasCleanRun required rest
    → HasCleanRun required (first ++ rest)
prefixed-HasCleanRun required first rest (before, run, after, e, l, h) = (
  first ++ before,
  run,
  after,
  subst (λ xs. first ++ xs ≡ (first ++ before) ++ (run ++ after)) (sym e)
      (sym (append_assoc first before (run ++ after))),
  l,
  h,
)

extended :
    (recent : List NightResult) (r : NightResult) (rest : List NightResult)
    → (recent ++ (r ∷ [])) ++ rest ≡ recent ++ (r ∷ rest)
extended recent r rest = append_assoc recent (r ∷ []) rest

decide_from-clean :
    (r : NightResult) (results : List NightResult) (required all streak : ℕ)
    → clean r ≡ true
    → (decide_from (r ∷ results) required all streak).recommended ≡ true
    → (suc streak ≡ required) ⊎ ((decide_from results required all (suc streak)).recommended ≡ true)
unfolding decide_from
decide_from-clean r results required all streak c e = ground (arith, c, e)

decide_from-unclean :
    (r : NightResult) (results : List NightResult) (required all streak : ℕ)
    → 0 < required
    → clean r ≡ false
    → (decide_from (r ∷ results) required all streak).recommended ≡ true
    → (decide_from results required all 0).recommended ≡ true
unfolding decide_from
decide_from-unclean r results required all streak some_required c e = ground (arith, c, e)

length-snoc :
    (recent : List NightResult) (r : NightResult)
    → length (recent ++ (r ∷ [])) ≡ suc (length recent)
length-snoc [] r = refl
length-snoc (x ∷ recent) r = ap suc (length-snoc recent r)

decide_from-HasCleanRun :
    (results recent : List NightResult) (required all streak : ℕ)
    → 0 < required
    → All (λ r. clean r ≡ true) recent
    → length recent ≡ streak
    → (decide_from results required all streak).recommended ≡ true
    → HasCleanRun required (recent ++ results)
unfolding decide_from
decide_from-HasCleanRun [] recent required all streak some_required h l e = ground arith
decide_from-HasCleanRun (r ∷ results) recent required all streak some_required h l e =
    elim (Bool-cases (clean r)) [
      | inl c ↦
          let longer : All (λ r. clean r ≡ true) (recent ++ (r ∷ [])) =
            All-append (λ r. clean r ≡ true) recent (r ∷ []) h (c, tt) in
          elim (decide_from-clean r results required all streak c e) [
            | inl full ↦ (
              [],
              recent ++ (r ∷ []),
              results,
              sym (extended recent r results),
              omega (arith, length-snoc recent r, l, full),
              longer,
            )
            | inr more ↦
                subst (λ xs. HasCleanRun required xs) (extended recent r results)
                  (decide_from-HasCleanRun results (recent ++ (r ∷ [])) required all (suc streak)
                    some_required longer (omega (arith, length-snoc recent r, l)) more)
          ]
      | inr d ↦
          subst (λ xs. HasCleanRun required xs) (extended recent r results)
            (prefixed-HasCleanRun required (recent ++ (r ∷ [])) results (
              decide_from-HasCleanRun results [] required all 0 some_required tt refl
                (decide_from-unclean r results required all streak some_required d e)))
    ]

decide-only_if :
    (results : List NightResult) (required : ℕ)
    → 0 < required
    → HasCleanRun required results
    → (decide results required).recommended ≡ true
unfolding decide
decide-only_if results required some_required (before, run, after, e, l, h) =
    subst (λ xs. (decide_from xs required (length results) 0).recommended ≡ true) (sym e)
      (decide_from-later before run after required (length results) 0 h some_required l)

-- Where at least one clean night is required, the cut-over is recommended exactly when so many nights in a row were
-- clean.
pub decide-HasCleanRun :
    (results : List NightResult) (required : ℕ)
    → 0 < required
    → ((decide results required).recommended ≡ true) ↔ HasCleanRun required results
unfolding decide
decide-HasCleanRun results required some_required = (
  decide_from-HasCleanRun results [] required (length results) 0 some_required tt refl,
  decide-only_if results required some_required,
)
