-- ===== src/Metadata/Bootstrap/Underscore.antt =====
-- Names that `_cover` of src/platform_ops/metadata/bootstrap.py never finishes with: `_token_prefix` leaves out the
-- underscores that a name starts with, so it never gives such a name back.
use Prim.Native.Char.{Char, code, char}
use data_platform_ops.Prelude.{
  ℕ, zero, suc, ◌+◌, String, Bool, true, false, ◌≡◌, inl, inr, refl, ap, ◌∙◌, arith, Option, none,
  List, [], ◌∷◌, Dict, get, keys, append_at, sorted_set, eqb, eq_iff, eq_self, Bool-cases, ◌==◌,
  add_text,
}
use data_platform_ops.Metadata.Bootstrap.Finished.{leads, parts_of-cons}
use data_platform_ops.Metadata.Bootstrap.{
  is_underscore, add_char, scan, parts_of, join_first, token_prefix, common_prefix, common_two,
  is_empty_text, collect, both, is_final, prefix_fits, cover_group, cover, group_from,
}

-- "_" + s
abbrev pub hidden : String → String
hidden s = String.◌∷◌ (char 95 tt) s

token_prefix-hidden :
    (s : String) (depth : ℕ) → token_prefix (hidden s) depth ≡ token_prefix s depth
unfolding token_prefix parts_of scan is_underscore
token_prefix-hidden s depth = refl

leads-add_char :
    (depth : ℕ) (c : Char) (run : String) (ps : List String)
    → eqb (code c) b'_' ≡ false
    → leads (join_first depth (add_char c run ps)) ≡ false
unfolding join_first add_char add_text
leads-add_char zero c run ps h = refl
leads-add_char (suc depth) c String.[] [] h = h
leads-add_char (suc depth) c String.[] (p ∷ ps) h = h
leads-add_char (suc depth) c (String.◌∷◌ u run) ps h = h

-- No prefix starts with an underscore.
leads-token_prefix :
    (depth : ℕ) (c : Char) (s : String)
    → eqb (code c) b'_' ≡ false
    → leads (token_prefix (String.◌∷◌ c s) depth) ≡ false
unfolding token_prefix
leads-token_prefix depth c s h =
    ap (λ ps. leads (join_first depth ps)) (parts_of-cons c s h)
    ∙ leads-add_char depth c (scan s).0 (scan s).1 h

module _ (fnmatchcase : String → String → Bool) (all_ids : List String) (root : String) (c : Char)
    (s : String) (start : eqb (code c) b'_' ≡ false) where
  twins : List String
  twins = hidden (String.◌∷◌ c s) ∷ String.◌∷◌ c s ∷ []

  twins-broad : prefix_fits fnmatchcase all_ids root twins ≡ false
  unfolding twins prefix_fits common_prefix common_two is_empty_text
  twins-broad = let apart : eqb 95 (code c) ≡ false = ground arith in rw apart refl

  never_whole :
      (depth : ℕ)
      → (token_prefix (hidden (String.◌∷◌ c s)) depth == hidden (String.◌∷◌ c s)) ≡ false
  never_whole depth =
      elim (Bool-cases (token_prefix (hidden (String.◌∷◌ c s)) depth == hidden (String.◌∷◌ c s))) [
        | inl e ↦
            let same =
              (eq_iff (token_prefix (hidden (String.◌∷◌ c s)) depth) (hidden (String.◌∷◌ c s))).0
                e in
            let shown : leads (token_prefix (hidden (String.◌∷◌ c s)) depth) ≡ true =
              ap leads same in
            let hides =
              ap leads (token_prefix-hidden (String.◌∷◌ c s) depth)
              ∙ leads-token_prefix depth c s start in
            cc
        | inr ne ↦ ne
      ]

  twins_group :
      (depth : ℕ) → group_from depth twins [] ≡ (token_prefix (String.◌∷◌ c s) depth, twins) ∷ []
  unfolding twins group_from append_at
  twins_group depth =
      ap
        (λ k.
          append_at (token_prefix (String.◌∷◌ c s) depth) (String.◌∷◌ c s)
            ((k, hidden (String.◌∷◌ c s) ∷ []) ∷ []))
        (token_prefix-hidden (String.◌∷◌ c s) depth)
      ∙ rw (eq_self (token_prefix (String.◌∷◌ c s) depth)) refl

  collect-twins :
      (deeper : List String → Option (List String)) (k : String)
      → deeper twins ≡ none
      → collect deeper ((k, twins) ∷ []) (sorted_set (k ∷ [])) ≡ none
  unfolding collect both get
  collect-twins deeper k h = rw (eq_self k, h) refl

  twins-split : (depth : ℕ) (groups : Dict (List String)) → is_final depth twins groups ≡ false
  unfolding is_final twins
  twins-split depth groups = ground (arith, never_whole depth)

  cover_group-twins :
      (deeper : List String → Option (List String)) (depth : ℕ)
      → deeper twins ≡ none
      → cover_group fnmatchcase all_ids root deeper twins depth ≡ none
  unfolding cover_group
  cover_group-twins deeper depth h =
      rw (twins-broad, twins-split (depth + 1) (group_from (depth + 1) twins []))
        (ap (λ g. collect deeper g (sorted_set (keys g))) (twins_group (depth + 1))
          ∙ collect-twins deeper _ h)

  cover-twins : (fuel depth : ℕ) → cover fnmatchcase all_ids root fuel twins depth ≡ none
  unfolding cover twins
  cover-twins zero depth = refl
  cover-twins (suc fuel) depth =
      cover_group-twins (λ g. cover fnmatchcase all_ids root fuel g (depth + 1)) depth
        (cover-twins fuel (depth + 1))

-- Take a name that does not start with an underscore, and the same name behind one underscore. Where a folder holds
-- these two models, `_cover` does not end: however much fuel it is given, from whatever depth, it uses it all up.
pub cover-endless :
    (fnmatchcase : String → String → Bool) (all_ids : List String) (root : String) (c : Char)
    (s : String)
    → eqb (code c) b'_' ≡ false
    → (fuel depth : ℕ)
    → cover fnmatchcase all_ids root fuel (hidden (String.◌∷◌ c s) ∷ String.◌∷◌ c s ∷ []) depth
      ≡ none
unfolding twins
cover-endless fnmatchcase all_ids root c s start fuel depth =
    cover-twins fnmatchcase all_ids root c s start fuel depth
