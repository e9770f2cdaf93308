-- ===== src/Metadata/Bootstrap.antt =====
-- src/platform_ops/metadata/bootstrap.py: the starter registry, one rule for each natural group of datasets. `fnmatchcase`,
-- `PurePosixPath(path).parent` and `unique_id.split(".", 3)` are the standard library's: parameters. Python's recursion
-- in `_cover` has no bound of its own; here it takes fuel, and `none` is the answer where the fuel is used up.
pub mod Rules
pub mod Names
pub mod Cover
pub mod Finished
pub mod Underscore
use Prim.Native.Char.{Char, code}
use Prim.Native.String
use data_platform_ops.Prelude.{
  ℕ, zero, suc, ◌+◌, String, Bool, true, false, not, ◌&&◌, ◌||◌, Option, none, some, List, [], ◌∷◌,
  ◌++◌, map, contains, keep, length, any_of, all_of, if◌then◌else◌, Dict, get, keys, or_default,
  append_at, sorted_set, sort_by, str_leb, eqb, ltb, ◌==◌, add_text,
}
use data_platform_ops.Metadata.Manifest.{Node, owned_types}

abbrev pub todo : String
todo = "TODO"

pub record StarterRule : Type 0 where
  pub pattern : String
  pub comment : String
  pub owner : String

is_underscore : Char → Bool
is_underscore c = eqb (code c) b'_'

unfoldable pub is_empty_text : String → Bool
is_empty_text String.[] = true
is_empty_text (String.◌∷◌ c s) = false

-- Puts a character that is no underscore before the underscores `run` and the parts behind them.
unfoldable pub add_char : Char → String → List String → List String
unfolding is_empty_text
add_char c String.[] [] = String.◌∷◌ c String.[] ∷ []
add_char c String.[] (p ∷ ps) = String.◌∷◌ c p ∷ ps
add_char c (String.◌∷◌ u run) ps = String.◌∷◌ c (String.◌∷◌ u run) ∷ ps

-- The underscores that the text starts with, and the matches of `[^_]+_*` in the rest.
unfoldable pub scan : String → String × List String
unfolding is_underscore add_char
scan String.[] = (String.[], [])
scan (String.◌∷◌ c s) =
    let (run, parts) = scan s in
    if is_underscore c then (String.◌∷◌ c run, parts) else (String.[], add_char c run parts)

-- re.findall(r"[^_]+_*", name)
unfoldable pub parts_of : String → List String
unfolding scan
parts_of name = (scan name).1

-- "".join(parts[:tokens])
join_first : ℕ → List String → String
join_first zero parts = String.[]
join_first (suc n) [] = String.[]
join_first (suc n) (p ∷ ps) = add_text p (join_first n ps)

unfoldable pub token_prefix : String → ℕ → String
unfolding parts_of join_first
token_prefix name tokens = join_first tokens (parts_of name)

unfoldable pub common_two : String → String → String
common_two String.[] t = String.[]
common_two (String.◌∷◌ c s) String.[] = String.[]
common_two (String.◌∷◌ c s) (String.◌∷◌ d t) =
    let rest = common_two s t in if eqb (code c) (code d) then String.◌∷◌ c rest else String.[]

-- os.path.commonprefix(names)
unfoldable pub common_prefix : List String → String
unfolding common_two
common_prefix [] = String.[]
common_prefix (n ∷ []) = n
common_prefix (n ∷ m ∷ ns) = common_two n (common_prefix (m ∷ ns))

-- f"model.{root_project}.{name}"
unfoldable pub model_id : String → String → String
model_id root name = add_text "model." (add_text root (add_text "." name))

-- groups[_token_prefix(name, depth)].append(name), over the names
unfoldable pub group_from : ℕ → List String → Dict (List String) → Dict (List String)
group_from depth [] groups = groups
group_from depth (n ∷ ns) groups = group_from depth ns (append_at (token_prefix n depth) n groups)

unfoldable pub both : Option (List String) → Option (List String) → Option (List String)
both none ps = none
both (some ps) none = none
both (some ps) (some qs) = some (ps ++ qs)

-- The patterns of the groups, in the order of their keys.
unfoldable pub collect :
    (List String → Option (List String)) → Dict (List String) → List String → Option (List String)
unfolding both
collect f groups [] = some []
collect f groups (k ∷ ks) = both (f (or_default [] (get k groups))) (collect f groups ks)

-- The groups are a single one whose names have no further token.
unfoldable pub is_final : ℕ → List String → Dict (List String) → Bool
is_final depth names groups =
    eqb (length (keys groups)) 1 && all_of (λ n. token_prefix n depth == n) names

module _ (fnmatchcase : String → String → Bool) (all_ids : List String) (root : String) where
  unfoldable pub inside : List String → List String
  inside names = map (model_id root) names

  unfoldable pub prefix_pattern : List String → String
  prefix_pattern names = add_text (model_id root (common_prefix names)) "*"

  -- The prefix is not empty and matches no model outside.
  unfoldable pub prefix_fits : List String → Bool
  unfolding inside is_empty_text
  prefix_fits names =
      not (is_empty_text (common_prefix names))
      && not (
          any_of (λ i. not (contains i (inside names)) && fnmatchcase i (prefix_pattern names))
            all_ids)

  -- `_cover` for a group that is not a single model.
  unfoldable pub cover_group :
      (List String → Option (List String)) → List String → ℕ → Option (List String)
  unfolding prefix_fits inside is_final group_from
  cover_group deeper names depth =
      let groups = group_from (depth + 1) names [] in
      if prefix_fits names
      then some (prefix_pattern names ∷ [])
      else if is_final (depth + 1) names groups
      then some (sorted_set (inside names))
      else collect deeper groups (sorted_set (keys groups))

  unfoldable pub cover : ℕ → List String → ℕ → Option (List String)
  unfolding cover_group
  cover fuel (name ∷ []) depth = some (model_id root name ∷ [])
  cover zero [] depth = none
  cover zero (n ∷ m ∷ ns) depth = none
  cover (suc fuel) [] depth = cover_group (λ g. cover fuel g (depth + 1)) [] depth
  cover (suc fuel) (n ∷ m ∷ ns) depth =
      cover_group (λ g. cover fuel g (depth + 1)) (n ∷ m ∷ ns) depth
