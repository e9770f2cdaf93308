-- ===== src/Metadata/Bootstrap/Names.antt =====
-- Names, their shared prefix and their groups in src/platform_ops/metadata/bootstrap.py.
use Prim.Native.Char.{code}
use data_platform_ops.Prelude.{
  ℕ, ◌+◌, String, Bool, true, not, ◌&&◌, ◌||◌, ◌≡◌, inl, inr, refl, sym, ◌∙◌, subst, arith, List,
  [], ◌∷◌, All, All-append, All-map_of, sum_of, Dict, get, keys, or_default, append_at,
  at-append_at, total, total-append_at, Distinct, Distinct-append_at, eqb, Bool-cases, startswith,
  startswith-add_text, ◌==◌,
}
use data_platform_ops.Metadata.Bootstrap.{
  common_two, common_prefix, model_id, group_from, token_prefix,
}

pub startswith_refl : (s : String) → startswith s s ≡ true
unfolding startswith
startswith_refl String.[] = refl
startswith_refl (String.◌∷◌ c s) = ground (arith, startswith_refl s)

startswith_trans :
    (s t u : String) → startswith s t ≡ true → startswith t u ≡ true → startswith s u ≡ true
unfolding startswith
startswith_trans s t String.[] h k = refl
startswith_trans s String.[] (String.◌∷◌ e u) h k = ground arith
startswith_trans String.[] (String.◌∷◌ d t) (String.◌∷◌ e u) h k = ground arith
startswith_trans (String.◌∷◌ c s) (String.◌∷◌ d t) (String.◌∷◌ e u) h k =
    ground (arith, startswith_trans s t u)

startswith-common_two :
    (s t : String) → (startswith s (common_two s t) ≡ true) × (startswith t (common_two s t) ≡ true)
unfolding startswith common_two
startswith-common_two String.[] t = (refl, refl)
startswith-common_two (String.◌∷◌ c s) String.[] = (refl, refl)
startswith-common_two (String.◌∷◌ c s) (String.◌∷◌ d t) =
    let rest = startswith-common_two s t in
    elim (Bool-cases (eqb (code c) (code d))) [
      | inl e ↦ rw e (ground arith, ground arith)
      | inr ne ↦ rw ne (refl, refl)
    ]

-- Every name starts with the shared prefix.
pub startswith-common_prefix :
    (names : List String) → All (λ n. startswith n (common_prefix names) ≡ true) names
unfolding common_prefix
startswith-common_prefix [] = tt
startswith-common_prefix (n ∷ []) = (startswith_refl n, tt)
startswith-common_prefix (n ∷ m ∷ ns) =
    let shared = startswith-common_two n (common_prefix (m ∷ ns)) in
    (
      shared.0,
      All-map_of (λ x. startswith x (common_prefix (m ∷ ns)) ≡ true)
          (λ x. startswith x (common_two n (common_prefix (m ∷ ns))) ≡ true) (m ∷ ns)
          (λ x h. startswith_trans x _ _ h shared.1) (startswith-common_prefix (m ∷ ns)),
    )

pub startswith-model_id :
    (root n p : String) → startswith (model_id root n) (model_id root p) ≡ startswith n p
unfolding model_id
startswith-model_id root n p =
    startswith-add_text "model." _ _ ∙ startswith-add_text root _ _ ∙ startswith-add_text "." n p

-- A text without a character that fnmatch gives a meaning to.
abbrev pub plain : String → Bool
plain String.[] = true
plain (String.◌∷◌ c s) =
    not (eqb (code c) b'*' || (eqb (code c) b'?' || eqb (code c) b'[')) && plain s

pub plain_prefix : (s p : String) → startswith s p ≡ true → plain s ≡ true → plain p ≡ true
unfolding startswith
plain_prefix s String.[] h k = refl
plain_prefix String.[] (String.◌∷◌ d p) h k = ground arith
plain_prefix (String.◌∷◌ c s) (String.◌∷◌ d p) h k = ground (arith, plain_prefix s p)

-- Grouping loses no name and adds none.
pub total-group_from :
    (f : String → ℕ) (depth : ℕ) (names : List String) (groups : Dict (List String))
    → total f (group_from depth names groups) ≡ sum_of f names + total f groups
unfolding group_from
total-group_from f depth [] groups = omega arith
total-group_from f depth (n ∷ ns) groups = omega (
  arith,
  total-group_from f depth ns (append_at (token_prefix n depth) n groups),
  total-append_at f (token_prefix n depth) n groups,
)

pub Distinct-group_from :
    (depth : ℕ) (names : List String) (groups : Dict (List String))
    → Distinct (keys groups)
    → Distinct (keys (group_from depth names groups))
unfolding group_from
Distinct-group_from depth [] groups d = d
Distinct-group_from depth (n ∷ ns) groups d =
    Distinct-group_from depth ns (append_at (token_prefix n depth) n groups)
      (Distinct-append_at (token_prefix n depth) n groups d)

-- What every name has, every member of a group has.
pub All-group_from {ℓ} :
    (P : String → Type ℓ) (depth : ℕ) (names : List String) (groups : Dict (List String))
    → All P names
    → ((k : String) → All P (or_default [] (get k groups)))
    → (k : String) → All P (or_default [] (get k (group_from depth names groups)))
unfolding group_from
All-group_from P depth [] groups all_names all_groups k = all_groups k
All-group_from P depth (n ∷ ns) groups all_names all_groups k =
    All-group_from P depth ns (append_at (token_prefix n depth) n groups) all_names.1
      (λ j. elim (Bool-cases (token_prefix n depth == j)) [
        | inl e ↦
            subst (All P) (sym (at-append_at j (token_prefix n depth) n groups ∙ rw e refl))
              (All-append P _ (n ∷ []) (all_groups j) (all_names.0, tt))
        | inr e ↦
            subst (All P) (sym (at-append_at j (token_prefix n depth) n groups ∙ rw e refl))
              (all_groups j)
      ])
      k
