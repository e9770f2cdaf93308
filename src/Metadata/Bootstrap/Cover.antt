-- ===== src/Metadata/Bootstrap/Cover.antt =====
-- What the patterns of `_cover` of src/platform_ops/metadata/bootstrap.py match.
use data_platform_ops.Prelude.{
  ℕ, zero, suc, ◌+◌, ◌≤◌, String, Bool, true, false, not, ◌&&◌, ◌≡◌, inl, inr, refl, sym, ◌∙◌,
  subst, arith, Option, none, some, List, [], ◌∷◌, ◌++◌, map, contains, any_of, All, All-map,
  All-sorted_set, sum_of, sum_of-append, sum-sorted_keys, Dict, get, keys, or_default, sorted_set,
  sorted_set-once, eq_iff, Bool-cases, if◌then◌else◌, startswith, add_text, ◌==◌,
}
use data_platform_ops.Metadata.Bootstrap.{
  common_prefix, model_id, inside, prefix_pattern, prefix_fits, collect, both, is_final,
  cover_group, cover, group_from, is_empty_text,
}
use data_platform_ops.Metadata.Bootstrap.Names.{
  startswith-common_prefix, startswith-model_id, plain, plain_prefix, total-group_from,
  Distinct-group_from, All-group_from,
}

-- How many of the names are those of the model with the id.
abbrev pub named : String → String → List String → ℕ
named root i names = sum_of (λ n. if i == model_id root n then 1 else 0) names

named_outside :
    (root i : String) (names : List String)
    → contains i (map (model_id root) names) ≡ false
    → named root i names ≡ 0
named_outside root i [] h = refl
named_outside root i (n ∷ ns) h = ground (arith, named_outside root i ns)

named_inside :
    (root i : String) (names : List String)
    → contains i (map (model_id root) names) ≡ true
    → 1 ≤ named root i names
named_inside root i [] h = ground arith
named_inside root i (n ∷ ns) h = ground (arith, named_inside root i ns)

inside_starts :
    (root i p : String) (names : List String)
    → All (λ n. startswith n p ≡ true) names
    → contains i (map (model_id root) names) ≡ true
    → startswith i (model_id root p) ≡ true
inside_starts root i p [] all h = ground arith
inside_starts root i p (n ∷ ns) all h = elim (Bool-cases (i == model_id root n)) [
  | inl e ↦
      subst (λ x. startswith x (model_id root p) ≡ true) (sym ((eq_iff i (model_id root n)).0 e))
        (startswith-model_id root n p ∙ all.0)
  | inr ne ↦ inside_starts root i p ns all.1 (ground arith)
]

any_of_none :
    (p : String → Bool) (i : String) (ids : List String)
    → contains i ids ≡ true
    → any_of p ids ≡ false
    → p i ≡ false
any_of_none p i [] h k = ground arith
any_of_none p i (j ∷ js) h k = elim (Bool-cases (i == j)) [
  | inl e ↦ subst (λ x. p x ≡ false) (sym ((eq_iff i j).0 e)) (ground arith)
  | inr ne ↦ any_of_none p i js (ground arith) (ground arith)
]

module _ (fnmatchcase : String → String → Bool) (all_ids : List String) (root i : String)
    (literal : (p : String) → plain p ≡ true → fnmatchcase i p ≡ (i == p))
    (prefixed : (p : String) → plain p ≡ true → fnmatchcase i (add_text p "*") ≡ startswith i p)
    (known : contains i all_ids ≡ true) where
  -- How many of the patterns match the id.
  matching : List String → ℕ
  matching ps = sum_of (λ p. if fnmatchcase i p then 1 else 0) ps

  AllPlain : List String → Type 0
  AllPlain names = All (λ n. plain (model_id root n) ≡ true) names

  matching-sorted_set :
      (ids : List String)
      → All (λ p. plain p ≡ true) ids
      → matching (sorted_set ids) ≡ (if contains i ids then 1 else 0)
  unfolding matching
  matching-sorted_set ids all =
      literals (sorted_set ids) (All-sorted_set (λ p. plain p ≡ true) ids all)
      ∙ sorted_set-once i ids
    where
      literals :
          (ps : List String)
          → All (λ p. plain p ≡ true) ps
          → sum_of (λ p. if fnmatchcase i p then 1 else 0) ps
            ≡ sum_of (λ p. if i == p then 1 else 0) ps
      literals [] all = refl
      literals (p ∷ ps) all = ground (arith, literal p all.0, literals ps all.1)

  matching-prefix_pattern :
      (n : String) (ns : List String)
      → AllPlain (n ∷ ns)
      → named root i (n ∷ ns) ≤ 1
      → prefix_fits fnmatchcase all_ids root (n ∷ ns) ≡ true
      → matching (prefix_pattern fnmatchcase all_ids root (n ∷ ns) ∷ []) ≡ named root i (n ∷ ns)
  unfolding matching AllPlain prefix_fits prefix_pattern inside
  matching-prefix_pattern n ns all once fits =
      let names = n ∷ ns in
      let starts = startswith-common_prefix names in
      let p = model_id root (common_prefix names) in
      let p_plain =
        plain_prefix (model_id root n) p
          (startswith-model_id root n (common_prefix names) ∙ starts.0) all.0 in
      elim (Bool-cases (contains i (map (model_id root) names))) [
        | inl here ↦
            let starts_i = inside_starts root i (common_prefix names) names starts here in
            ground (arith, prefixed p p_plain, starts_i, named_inside root i names here)
        | inr gone ↦
            let none_outside =
              any_of_none
                (λ j.
                  not (contains j (map (model_id root) names)) && fnmatchcase j (add_text p "*"))
                i all_ids known (ground arith) in
            ground (arith, none_outside, named_outside root i names gone)
      ]

  both-some :
      (xs ys : Option (List String)) (ps : List String)
      → both xs ys ≡ some ps
      → (zs : List String) × (bs : List String) × (xs ≡ some zs) × (ys ≡ some bs) × (zs ++ bs ≡ ps)
  unfolding both
  both-some none ys ps h = ground arith
  both-some (some xs) none ps h = ground arith
  both-some (some xs) (some ys) ps h = (xs, ys, refl, refl, ground arith)

  module _ (deeper : List String → Option (List String))
      (deeper_matching : (names ps : List String)
        → AllPlain names
        → named root i names ≤ 1
        → deeper names ≡ some ps
        → matching ps ≡ named root i names) where
    matching-collect :
        (groups : Dict (List String)) (ks ps : List String)
        → ((k : String) → AllPlain (or_default [] (get k groups)))
        → sum_of (λ k. named root i (or_default [] (get k groups))) ks ≤ 1
        → collect deeper groups ks ≡ some ps
        → matching ps ≡ sum_of (λ k. named root i (or_default [] (get k groups))) ks
    unfolding collect matching
    matching-collect groups [] ps all once h =
        let e : [] ≡ ps = ground arith in subst (λ qs. matching qs ≡ 0) e refl
    matching-collect groups (k ∷ ks) ps all once h =
        let (xs, ys, ex, ey, exy) =
          both-some (deeper (or_default [] (get k groups))) (collect deeper groups ks) ps h in
        let first =
          deeper_matching (or_default [] (get k groups)) xs (all k) (omega (arith, once)) ex in
        let rest = matching-collect groups ks ys all (omega (arith, once)) ey in
        subst
          (λ qs. matching qs ≡ sum_of (λ k. named root i (or_default [] (get k groups))) (k ∷ ks))
          exy
          (sum_of-append (λ p. if fnmatchcase i p then 1 else 0) xs ys ∙ omega (arith, first, rest))

    matching-cover_group :
        (n : String) (ns : List String) (depth : ℕ) (ps : List String)
        → AllPlain (n ∷ ns)
        → named root i (n ∷ ns) ≤ 1
        → cover_group fnmatchcase all_ids root deeper (n ∷ ns) depth ≡ some ps
        → matching ps ≡ named root i (n ∷ ns)
    unfolding cover_group inside AllPlain get
    matching-cover_group n ns depth ps all once h =
        let names : List String = n ∷ ns in
        let groups = group_from (depth + 1) names [] in
        let distinct = Distinct-group_from (depth + 1) names [] tt in
        let read_back =
          sum-sorted_keys (λ n. if i == model_id root n then 1 else 0) groups distinct in
        let grouped =
          total-group_from (λ n. if i == model_id root n then 1 else 0) (depth + 1) names [] in
        elim (Bool-cases (prefix_fits fnmatchcase all_ids root names)) [
          | inl fits ↦
              let e : prefix_pattern fnmatchcase all_ids root names ∷ [] ≡ ps = ground arith in
              subst (λ qs. matching qs ≡ named root i names) e
                (matching-prefix_pattern n ns all once fits)
          | inr broad ↦ elim (Bool-cases (is_final (depth + 1) names groups)) [
            | inl final ↦
                let e : sorted_set (map (model_id root) names) ≡ ps = ground arith in
                subst (λ qs. matching qs ≡ named root i names) e
                  (matching-sorted_set (map (model_id root) names)
                      (All-map (λ p. plain p ≡ true) (model_id root) names all)
                    ∙ counted names once)
            | inr split ↦
                let e : collect deeper groups (sorted_set (keys groups)) ≡ some ps = ground arith in
                matching-collect groups (sorted_set (keys groups)) ps
                  (All-group_from (λ n. plain (model_id root n) ≡ true) (depth + 1) names [] all
                    (λ k. tt))
                  (omega (arith, read_back, grouped, once)) e
                ∙ omega (arith, read_back, grouped)
          ]
        ]
      where
        counted :
            (names : List String)
            → named root i names ≤ 1
            → (if contains i (map (model_id root) names) then 1 else 0) ≡ named root i names
        counted names once = elim (Bool-cases (contains i (map (model_id root) names))) [
          | inl here ↦ ground (arith, named_inside root i names here)
          | inr gone ↦ ground (arith, named_outside root i names gone)
        ]

  some_path : {xs ys : List String} → some xs ≡ some ys → xs ≡ ys
  some_path h = cc

  cover_group-nil :
      (deeper : List String → Option (List String)) (depth : ℕ)
      → cover_group fnmatchcase all_ids root deeper [] depth ≡ some []
  unfolding cover_group prefix_fits common_prefix is_empty_text group_from is_final collect
  cover_group-nil deeper depth = refl

  matching-cover :
      (fuel : ℕ) (names : List String) (depth : ℕ) (ps : List String)
      → AllPlain names
      → named root i names ≤ 1
      → cover fnmatchcase all_ids root fuel names depth ≡ some ps
      → matching ps ≡ named root i names
  unfolding cover matching AllPlain
  matching-cover fuel (n ∷ []) depth ps all once h =
      let e : model_id root n ∷ [] ≡ ps = ground arith in
      subst (λ qs. sum_of (λ p. if fnmatchcase i p then 1 else 0) qs ≡ named root i (n ∷ [])) e
        (ground (arith, literal (model_id root n) all.0))
  matching-cover zero [] depth ps all once h = ground arith
  matching-cover zero (n ∷ m ∷ ns) depth ps all once h = ground arith
  matching-cover (suc fuel) [] depth ps all once h =
      let e : [] ≡ ps = some_path (
        sym (cover_group-nil (λ g. cover fnmatchcase all_ids root fuel g (depth + 1)) depth) ∙ h) in
      subst (λ qs. sum_of (λ p. if fnmatchcase i p then 1 else 0) qs ≡ 0) e refl
  matching-cover (suc fuel) (n ∷ m ∷ ns) depth ps all once h =
      matching-cover_group (λ g. cover fnmatchcase all_ids root fuel g (depth + 1))
        (λ g qs all once h. matching-cover fuel g (depth + 1) qs all once h) n (m ∷ ns) depth ps all
        once h

-- Let `fnmatchcase` match a pattern without special characters by equality, and such a text followed by a star by its
-- prefix. Take an id among all the model ids, names whose ids have no special character, and at most one name with that
-- id. The patterns that `_cover` answers then match the id once where it is the id of one of the names, and not at all
-- where it is not: no model of another folder is caught, none of the folder's is left out, and no two patterns tie.
pub cover-exact :
    (fnmatchcase : String → String → Bool) (all_ids : List String) (root i : String) (fuel : ℕ)
    (names : List String) (depth : ℕ) (patterns : List String)
    → ((j p : String) → plain p ≡ true → fnmatchcase j p ≡ (j == p))
    → ((j p : String) → plain p ≡ true → fnmatchcase j (add_text p "*") ≡ startswith j p)
    → contains i all_ids ≡ true
    → All (λ n. plain (model_id root n) ≡ true) names
    → named root i names ≤ 1
    → cover fnmatchcase all_ids root fuel names depth ≡ some patterns
    → sum_of (λ p. if fnmatchcase i p then 1 else 0) patterns ≡ named root i names
unfolding matching AllPlain
cover-exact fnmatchcase all_ids root i fuel names depth patterns literal prefixed known all once h =
    matching-cover fnmatchcase all_ids root i (literal i) (prefixed i) known fuel names depth
      patterns all once h
