-- ===== src/Metadata/Bootstrap/Finished.antt =====
-- That the recursion of `_cover` of src/platform_ops/metadata/bootstrap.py ends.
use Prim.Native.Char.{Char, code}
use data_platform_ops.Prelude.{
  ℕ, zero, suc, ◌+◌, ◌≤◌, String, Bool, true, false, ◌≡◌, inl, inr, refl, sym, ap, ◌∙◌, subst,
  arith, Option, none, some, List, [], ◌∷◌, ◌++◌, length, all_of, contains, contains-sorted_set,
  All, All-map_of, Dict, get, keys, or_default, append_at, Entries, Entries-append_at, Entries-get,
  sorted_set, eqb, eq_iff, eq_self, Bool-cases, add_text, ◌==◌,
}
use data_platform_ops.Metadata.Bootstrap.{
  is_underscore, add_char, scan, parts_of, join_first, token_prefix, collect, both, is_final,
  prefix_fits, cover_group, cover, group_from,
}
use data_platform_ops.Metadata.Bootstrap.Names.{All-group_from}

joined : List String → String
joined [] = String.[]
joined (p ∷ ps) = add_text p (joined ps)

joined-add_char :
    (c : Char) (run : String) (ps : List String)
    → joined (add_char c run ps) ≡ String.◌∷◌ c (add_text run (joined ps))
unfolding joined add_char add_text
joined-add_char c String.[] [] = refl
joined-add_char c String.[] (p ∷ ps) = refl
joined-add_char c (String.◌∷◌ u run) ps = refl

-- Nothing of a text is lost: the underscores it starts with, then its parts.
joined-scan : (s : String) → add_text (scan s).0 (joined (scan s).1) ≡ s
unfolding scan add_text joined
joined-scan String.[] = refl
joined-scan (String.◌∷◌ c s) = elim (Bool-cases (is_underscore c)) [
  | inl e ↦ rw e (ap (String.◌∷◌ c) (joined-scan s))
  | inr ne ↦ rw ne (joined-add_char c (scan s).0 (scan s).1 ∙ ap (String.◌∷◌ c) (joined-scan s))
]

-- Whether the name starts with an underscore.
abbrev pub leads : String → Bool
leads String.[] = false
leads (String.◌∷◌ c s) = eqb (code c) b'_'

pub parts_of-cons :
    (c : Char) (s : String)
    → eqb (code c) b'_' ≡ false
    → parts_of (String.◌∷◌ c s) ≡ add_char c (scan s).0 (scan s).1
unfolding parts_of scan is_underscore
parts_of-cons c s h = ground arith

joined-parts_of : (s : String) → leads s ≡ false → joined (parts_of s) ≡ s
unfolding parts_of scan joined
joined-parts_of String.[] h = refl
joined-parts_of (String.◌∷◌ c s) h =
    ap joined (parts_of-cons c s h)
    ∙ joined-add_char c (scan s).0 (scan s).1
    ∙ ap (String.◌∷◌ c) (joined-scan s)

join_first-all :
    (tokens : ℕ) (ps : List String) → length ps ≤ tokens → join_first tokens ps ≡ joined ps
unfolding join_first joined
join_first-all zero [] h = refl
join_first-all zero (p ∷ ps) h = ground arith
join_first-all (suc tokens) [] h = refl
join_first-all (suc tokens) (p ∷ ps) h =
    ap (add_text p) (join_first-all tokens ps (omega (arith, h)))

-- From the name's last token on, a longer prefix is the name itself.
token_prefix-whole :
    (n : String) (depth : ℕ)
    → leads n ≡ false
    → length (parts_of n) ≤ depth
    → token_prefix n depth ≡ n
unfolding token_prefix
token_prefix-whole n depth plain_start h =
    join_first-all depth (parts_of n) h ∙ joined-parts_of n plain_start

Entries-group_from :
    (depth : ℕ) (names : List String) (groups : Dict (List String))
    → Entries (λ k n. token_prefix n depth ≡ k) groups
    → Entries (λ k n. token_prefix n depth ≡ k) (group_from depth names groups)
unfolding group_from
Entries-group_from depth [] groups h = h
Entries-group_from depth (n ∷ ns) groups h =
    Entries-group_from depth ns (append_at (token_prefix n depth) n groups)
      (Entries-append_at (λ k n. token_prefix n depth ≡ k) (token_prefix n depth) n groups refl h)

one_group :
    (depth : ℕ) (k : String) (names vs : List String)
    → All (λ n. token_prefix n depth ≡ k) names
    → length (keys (group_from depth names ((k, vs) ∷ []))) ≡ 1
unfolding group_from append_at
one_group depth k [] vs all = refl
one_group depth k (n ∷ ns) vs all =
    rw (all.0, eq_self k) (one_group depth k ns (vs ++ (n ∷ [])) all.1)

all_of_whole :
    (depth : ℕ) (names : List String)
    → All (λ n. token_prefix n depth ≡ n) names
    → all_of (λ n. token_prefix n depth == n) names ≡ true
all_of_whole depth [] all = refl
all_of_whole depth (n ∷ ns) all =
    let same = (eq_iff (token_prefix n depth) n).1 all.0 in
    ground (arith, all_of_whole depth ns all.1)

-- The result is a list of patterns.
abbrev pub Finishes : Option (List String) → Type 0
Finishes none = ⊥
Finishes (some ps) = Unit

both-Finishes : (xs ys : Option (List String)) → Finishes xs → Finishes ys → Finishes (both xs ys)
unfolding both
both-Finishes none ys hx hy = hx
both-Finishes (some xs) none hx hy = hy
both-Finishes (some xs) (some ys) hx hy = tt

collect-Finishes :
    (deeper : List String → Option (List String)) (groups : Dict (List String)) (ks : List String)
    → All (λ k. Finishes (deeper (or_default [] (get k groups)))) ks
    → Finishes (collect deeper groups ks)
unfolding collect
collect-Finishes deeper groups [] h = tt
collect-Finishes deeper groups (k ∷ ks) h =
    both-Finishes (deeper (or_default [] (get k groups))) (collect deeper groups ks) h.0
      (collect-Finishes deeper groups ks h.1)

All-both :
    (P Q R : String → Type 0) (ks : List String)
    → ((k : String) → P k → Q k → R k)
    → All P ks
    → All Q ks
    → All R ks
All-both P Q R [] h p q = tt
All-both P Q R (k ∷ ks) h p q = (h k p.0 q.0, All-both P Q R ks h p.1 q.1)

All-listed {ℓ} :
    (P : String → Type ℓ) (ks : List String)
    → ((k : String) → contains k ks ≡ true → P k)
    → All P ks
All-listed P [] h = tt
All-listed P (k ∷ ks) h =
    let self = eq_self k in (h k (ground arith), All-listed P ks (λ j e. h j (ground (arith, e))))

-- The name does not start with an underscore, and has at most `limit` parts.
abbrev pub Within : ℕ → String → Type 0
Within limit n = (leads n ≡ false) × (length (parts_of n) ≤ limit)

final_of :
    (depth : ℕ) (k n : String) (ns : List String)
    → All (λ n. token_prefix n (depth + 1) ≡ n) (n ∷ ns)
    → All (λ n. n ≡ k) (n ∷ ns)
    → is_final (depth + 1) (n ∷ ns) (group_from (depth + 1) (n ∷ ns) []) ≡ true
unfolding is_final group_from append_at
final_of depth k n ns whole same =
    let keyed =
      All-both (λ n. token_prefix n (depth + 1) ≡ n) (λ n. n ≡ k)
        (λ n. token_prefix n (depth + 1) ≡ token_prefix k (depth + 1)) ns
        (λ n w e. ap (λ x. token_prefix x (depth + 1)) e) whole.1 same.1 in
    let one = one_group (depth + 1) (token_prefix n (depth + 1)) ns (n ∷ []) (
      subst (λ x. All (λ n. token_prefix n (depth + 1) ≡ token_prefix x (depth + 1)) ns)
        (sym same.0) keyed) in
    ground (arith, one, all_of_whole (depth + 1) (n ∷ ns) whole)

module _ (fnmatchcase : String → String → Bool) (all_ids : List String) (root : String) where
  -- One group of names without a further token, or the patterns of the groups.
  cover_group-Finishes :
      (deeper : List String → Option (List String)) (names : List String) (depth : ℕ)
      → ((k : String)
          → contains k (keys (group_from (depth + 1) names [])) ≡ true
          → Finishes (deeper (or_default [] (get k (group_from (depth + 1) names [])))))
      → Finishes (cover_group fnmatchcase all_ids root deeper names depth)
  unfolding cover_group
  cover_group-Finishes deeper names depth h =
      let groups = group_from (depth + 1) names [] in
      elim (Bool-cases (prefix_fits fnmatchcase all_ids root names)) [
        | inl fits ↦ rw fits tt
        | inr broad ↦ elim (Bool-cases (is_final (depth + 1) names groups)) [
          | inl final ↦ rw (broad, final) tt
          | inr split ↦
              rw (broad, split)
                (collect-Finishes deeper groups (sorted_set (keys groups)) (
                  All-listed (λ k. Finishes (deeper (or_default [] (get k groups)))) _
                    (λ k e. h k (sym (contains-sorted_set k (keys groups)) ∙ e))))
        ]
      ]

  final-Finishes :
      (deeper : List String → Option (List String)) (names : List String) (depth : ℕ)
      → is_final (depth + 1) names (group_from (depth + 1) names []) ≡ true
      → Finishes (cover_group fnmatchcase all_ids root deeper names depth)
  unfolding cover_group
  final-Finishes deeper names depth final =
      elim (Bool-cases (prefix_fits fnmatchcase all_ids root names)) [
        | inl fits ↦ rw fits tt
        | inr broad ↦ rw (broad, final) tt
      ]

  -- Names that are all the same end at once.
  same-Finishes :
      (fuel depth : ℕ) (k : String) (names : List String)
      → All (λ n. token_prefix n (depth + 1) ≡ n) names
      → All (λ n. n ≡ k) names
      → Finishes (cover fnmatchcase all_ids root (suc fuel) names depth)
  unfolding cover group_from
  same-Finishes fuel depth k [] whole same =
      cover_group-Finishes _ [] depth (λ j e. nothing j depth e)
    where
      nothing :
          {A : Type 0} (j : String) (depth : ℕ)
          → contains j (keys (group_from (depth + 1) [] [])) ≡ true
          → A
      nothing j depth e = cc
  same-Finishes fuel depth k (n ∷ []) whole same = tt
  same-Finishes fuel depth k (n ∷ m ∷ ns) whole same =
      final-Finishes _ (n ∷ m ∷ ns) depth (final_of depth k n (m ∷ ns) whole same)

  -- One level below, where every name is whole, each group has one name only.
  settled-Finishes :
      (limit depth : ℕ) (k : String) (group : List String)
      → limit ≤ depth + 1
      → All (Within limit) group
      → All (λ n. token_prefix n (depth + 1) ≡ k) group
      → Finishes (cover fnmatchcase all_ids root 1 group (depth + 1))
  settled-Finishes limit depth k group h within same =
      same-Finishes 0 (depth + 1) k group
        (All-map_of (Within limit) (λ n. token_prefix n (depth + 1 + 1) ≡ n) group
          (λ n w. token_prefix-whole n (depth + 1 + 1) w.0 (omega (arith, w.1, h))) within)
        (All-both (Within limit) (λ n. token_prefix n (depth + 1) ≡ k) (λ n. n ≡ k) group
          (λ n w e. sym (token_prefix-whole n (depth + 1) w.0 (omega (arith, w.1, h))) ∙ e) within
          same)

  step-Finishes :
      (deeper : List String → Option (List String)) (limit depth : ℕ) (names : List String)
      → All (Within limit) names
      → ((k : String) (group : List String)
          → All (Within limit) group
          → All (λ n. token_prefix n (depth + 1) ≡ k) group
          → Finishes (deeper group))
      → Finishes (cover_group fnmatchcase all_ids root deeper names depth)
  unfolding get
  step-Finishes deeper limit depth names all h = cover_group-Finishes deeper names depth (λ k e.
      h k (or_default [] (get k (group_from (depth + 1) names [])))
        (All-group_from (Within limit) (depth + 1) names [] all (λ j. tt) k)
        (Entries-get (λ k n. token_prefix n (depth + 1) ≡ k) k (group_from (depth + 1) names []) e
          (Entries-group_from (depth + 1) names [] tt)).1)

  cover-Finishes :
      (limit left depth : ℕ) (names : List String)
      → limit ≤ depth + 1 + left
      → All (Within limit) names
      → Finishes (cover fnmatchcase all_ids root (suc (suc left)) names depth)
  unfolding cover
  cover-Finishes limit left depth (n ∷ []) h all = tt
  cover-Finishes limit zero depth [] h all =
      step-Finishes _ limit depth [] all
        (λ k group w e. settled-Finishes limit depth k group (omega (arith, h)) w e)
  cover-Finishes limit zero depth (n ∷ m ∷ ns) h all =
      step-Finishes _ limit depth (n ∷ m ∷ ns) all
        (λ k group w e. settled-Finishes limit depth k group (omega (arith, h)) w e)
  cover-Finishes limit (suc left) depth [] h all =
      step-Finishes _ limit depth [] all
        (λ k group w e. cover-Finishes limit left (depth + 1) group (omega (arith, h)) w)
  cover-Finishes limit (suc left) depth (n ∷ m ∷ ns) h all =
      step-Finishes _ limit depth (n ∷ m ∷ ns) all
        (λ k group w e. cover-Finishes limit left (depth + 1) group (omega (arith, h)) w)

answered : (o : Option (List String)) → Finishes o → (ps : List String) × (o ≡ some ps)
answered none h = absurd h
answered (some ps) h = (ps, refl)

-- Where no name starts with an underscore and none has more than `limit` underscore-separated parts, `_cover` answers:
-- `limit + 2` levels of its recursion are enough.
pub cover-finishes :
    (fnmatchcase : String → String → Bool) (all_ids : List String) (root : String) (limit : ℕ)
    (names : List String)
    → All (Within limit) names
    → (patterns : List String) × (cover fnmatchcase all_ids root (suc (suc limit)) names 0
        ≡ some patterns)
cover-finishes fnmatchcase all_ids root limit names all =
    answered (cover fnmatchcase all_ids root (suc (suc limit)) names 0)
      (cover-Finishes fnmatchcase all_ids root limit limit 0 names (omega arith) all)
