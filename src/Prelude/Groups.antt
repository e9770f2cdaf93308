-- ===== src/Prelude/Groups.antt =====
-- Laws of grouping by key: `d.setdefault(k, []).append(v)` over a list, read back key by key.
use mathlib.Core.Bool.{false≢true}
use Prim.Native.Nat.{ℕ, ◌+◌}
use Prim.Native.String.{String}
use mathlib.Core.Path.{◌≡◌, refl, sym, ap, ◌∙◌, subst}
use mathlib.Core.Logic.{◌≢◌, inl, inr}
use mathlib.Core.Bool.{true, false, ◌||◌}
use mathlib.Core.List.{List, [], ◌∷◌, ◌++◌}
use native.Mathlib.Omega.{arith}
use text.Mathlib.Text.{◌==◌}
use text.Mathlib.TextEquality.{eq_iff}
use data_platform_ops.Prelude.Tests.{Bool-cases, if◌then◌else◌}
use data_platform_ops.Prelude.Strings.{eq_self, eq→path}
use data_platform_ops.Prelude.Lists.{All, All-append, sum_of, sum_of-append}
use data_platform_ops.Prelude.Sets.{contains}
use data_platform_ops.Prelude.SortedSet.{sorted_set, insert_set, contains-sorted_set}
use data_platform_ops.Prelude.Dicts.{Dict, get, keys, or_default, append_at}

-- No element twice.
abbrev pub Distinct : List String → Type 0
Distinct [] = Unit
Distinct (x ∷ xs) = (contains x xs ≡ false) × Distinct xs

sum-insert_set :
    (f : String → ℕ) (x : String) (xs : List String)
    → contains x xs ≡ false
    → sum_of f (insert_set x xs) ≡ f x + sum_of f xs
sum-insert_set f x [] h = refl
sum-insert_set f x (y ∷ ys) h = ground (arith, sum-insert_set f x ys)

pub sum-sorted_set :
    (f : String → ℕ) (xs : List String) → Distinct xs → sum_of f (sorted_set xs) ≡ sum_of f xs
sum-sorted_set f [] d = refl
sum-sorted_set f (x ∷ xs) d =
    let fresh = contains-sorted_set x xs ∙ d.0 in
    sum-insert_set f x (sorted_set xs) fresh ∙ ap (λ n. f x + n) (sum-sorted_set f xs d.1)

module _ {ℓ} {V : Type ℓ} where
  pub keys-append_at :
      (j k : String) (v : V) (m : Dict (List V))
      → contains j (keys (append_at k v m)) ≡ ((j == k) || contains j (keys m))
  unfolding append_at
  keys-append_at j k v [] = refl
  keys-append_at j k v ((i, vs) ∷ m) =
      ground (arith, eq_iff i k, eq_iff j i, eq_iff j k, keys-append_at j k v m)

  pub Distinct-append_at :
      (k : String) (v : V) (m : Dict (List V))
      → Distinct (keys m)
      → Distinct (keys (append_at k v m))
  unfolding append_at
  Distinct-append_at k v [] d = (refl, tt)
  Distinct-append_at k v ((i, vs) ∷ m) d =
      ground (arith, Distinct-append_at k v m d.1, keys-append_at i k v m, eq_iff i k)

  -- The list at a key after one more value has been put under a key.
  pub at-append_at :
      (k j : String) (v : V) (m : Dict (List V))
      → or_default [] (get k (append_at j v m))
        ≡ (if j == k then or_default [] (get k m) ++ (v ∷ []) else or_default [] (get k m))
  unfolding get append_at
  at-append_at k j v [] = ground (arith, eq_iff j k)
  at-append_at k j v ((i, vs) ∷ m) =
      ground (arith, eq_iff j k, eq_iff i j, eq_iff i k, at-append_at k j v m)

  -- The total of a measure over all the lists.
  abbrev pub total : (V → ℕ) → Dict (List V) → ℕ
  total f [] = 0
  total f ((k, vs) ∷ m) = sum_of f vs + total f m

  pub total-append_at :
      (f : V → ℕ) (k : String) (v : V) (m : Dict (List V))
      → total f (append_at k v m) ≡ f v + total f m
  unfolding append_at
  total-append_at f k v [] = omega arith
  total-append_at f k v ((i, vs) ∷ m) =
      ground (arith, sum_of-append f vs (v ∷ []), total-append_at f k v m)

  get-cons_ne :
      (f : List V → ℕ) (i : String) (vs : List V) (m : Dict (List V)) (ks : List String)
      → contains i ks ≡ false
      → sum_of (λ k. f (or_default [] (get k ((i, vs) ∷ m)))) ks
        ≡ sum_of (λ k. f (or_default [] (get k m))) ks
  unfolding get
  get-cons_ne f i vs m [] h = refl
  get-cons_ne f i vs m (k ∷ ks) h = ground (arith, eq_iff i k, get-cons_ne f i vs m ks)

  sum-keys :
      (f : V → ℕ) (m : Dict (List V))
      → Distinct (keys m)
      → sum_of (λ k. sum_of f (or_default [] (get k m))) (keys m) ≡ total f m
  sum-keys f [] d = refl
  sum-keys f ((i, vs) ∷ m) d =
      let here_ : or_default [] (get i ((i, vs) ∷ m)) ≡ vs =
        (unfold get in ground (arith, eq_self i)) in
      omega
        (arith, ap (sum_of f) here_, get-cons_ne (sum_of f) i vs m (keys m) d.0, sum-keys f m d.1)

  -- Read back in the order of the keys, the lists hold what was put in, as often.
  pub sum-sorted_keys :
      (f : V → ℕ) (m : Dict (List V))
      → Distinct (keys m)
      → sum_of (λ k. sum_of f (or_default [] (get k m))) (sorted_set (keys m)) ≡ total f m
  sum-sorted_keys f m d =
      sum-sorted_set (λ k. sum_of f (or_default [] (get k m))) (keys m) d ∙ sum-keys f m d

  append-cons-ne : (vs : List V) (v : V) → vs ++ v ∷ [] ≢ []
  append-cons-ne [] v e = cc
  append-cons-ne (w ∷ vs) v e = cc

  -- Each list has an element, and all its elements have the property at its key.
  abbrev pub Entries {κ} : (String → V → Type κ) → Dict (List V) → Type (ℓ ⊔ κ)
  Entries P [] = Unit
  Entries P ((k, vs) ∷ m) = (vs ≢ []) × All (P k) vs × Entries P m

  pub Entries-append_at {κ} :
      (P : String → V → Type κ) (k : String) (v : V) (m : Dict (List V))
      → P k v
      → Entries P m
      → Entries P (append_at k v m)
  unfolding append_at
  Entries-append_at P k v [] p h = ((λ e. cc), (p, tt), tt)
  Entries-append_at P k v ((i, vs) ∷ m) p h = elim (Bool-cases (i == k)) [
    | inl e ↦
        let here_ = subst (λ x. P x v) (sym (eq→path i k e)) p in
        rw e (append-cons-ne vs v, All-append (P i) vs (v ∷ []) h.1 (here_, tt), h.2)
    | inr ne ↦ rw ne (h.0, h.1, Entries-append_at P k v m p h.2)
  ]

  pub Entries-get {κ} :
      (P : String → V → Type κ) (k : String) (m : Dict (List V))
      → contains k (keys m) ≡ true
      → Entries P m
      → (or_default [] (get k m) ≢ []) × All (P k) (or_default [] (get k m))
  unfolding get
  Entries-get P k [] c h = absurd (false≢true c)
  Entries-get P k ((i, vs) ∷ m) c h = elim (Bool-cases (i == k)) [
    | inl e ↦ rw e (subst (λ x. (vs ≢ []) × All (P x) vs) (eq→path i k e) (h.0, h.1))
    | inr ne ↦
        let later : contains k (keys m) ≡ true = ground (arith, eq_iff i k, eq_iff k i) in
        rw ne (Entries-get P k m later h.2)
  ]
