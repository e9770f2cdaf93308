-- ===== src/Metadata/Registry.antt =====
-- src/platform_ops/metadata/registry.py: ownership rules and how a dataset's owner is resolved. A problem with a
-- rule is a value of `Problem` in place of its message. `fnmatchcase` is a parameter: nothing here
-- depends on which ids a pattern matches.
pub mod Specificity
pub mod Resolve
use Prim.Native.Char.{Char, code}
use Prim.Native.String
use data_platform_ops.Prelude.{
  ℕ, zero, suc, ◌+◌, String, Bool, true, false, not, ◌&&◌, ◌||◌, Option, none, some, List, [], ◌∷◌,
  map, contains, keep, length, if◌then◌else◌, Dict, get, ltb, leb, eqb, str_leb, sort_by, ◌==◌,
  ◌++◌,
}
use data_platform_ops.Metadata.Lineage.{Tier}

pub record Team : Type 0 where
  pub id : String
  pub members : List String

pub record DatasetRule : Type 0 where
  pub pattern : String
  pub owner : String
  pub team : String
  pub tier : Tier
  pub backup : Option String

-- pattern.find("]", i + 2), counted from behind the first character after the bracket
close_at : String → ℕ → Option ℕ
close_at String.[] n = none
close_at (String.◌∷◌ c s) n =
    let rest = close_at s (n + 1) in if eqb (code c) b']' then some n else rest

find_close : String → Option ℕ
unfolding close_at
find_close String.[] = none
find_close (String.◌∷◌ c s) = close_at s 0

-- What the character adds, and how many of the following ones belong to the same token.
record Token : Type 0 where
  literal : ℕ
  wildcards : ℕ
  skip : ℕ

token : Char → String → Token
unfolding find_close
token c s =
    if eqb (code c) b'*' || eqb (code c) b'?'
    then record { literal = 0; wildcards = 1; skip = 0 }
    else if eqb (code c) b'['
    then elim (find_close s) [
      | none ↦ record { literal = 1; wildcards = 0; skip = 0 }
      | some n ↦ record { literal = 0; wildcards = 1; skip = n + 2 }
    ]
    else record { literal = 1; wildcards = 0; skip = 0 }

-- The `while` loop over the pattern; `skip` is how far `i` has been moved ahead.
specificity_from : String → ℕ → ℕ → ℕ → ℕ × ℕ
unfolding token
specificity_from String.[] skip literal wildcards = (literal, wildcards)
specificity_from (String.◌∷◌ c s) (suc skip) literal wildcards =
    specificity_from s skip literal wildcards
specificity_from (String.◌∷◌ c s) zero literal wildcards =
    let t = token c s in specificity_from s t.skip (literal + t.literal) (wildcards + t.wildcards)

unfoldable pub specificity : String → ℕ × ℕ
unfolding specificity_from
specificity pattern = specificity_from pattern 0 0 0

-- `_rank(a) < _rank(b)` and `_rank(a) == _rank(b)`: more literal characters, then fewer wildcards.
unfoldable pub rank_ltb : DatasetRule → DatasetRule → Bool
rank_ltb a b =
    let (la, wa) = specificity a.pattern in
    let (lb, wb) = specificity b.pattern in ltb lb la || (eqb la lb && ltb wa wb)

unfoldable pub rank_eqb : DatasetRule → DatasetRule → Bool
rank_eqb a b =
    let (la, wa) = specificity a.pattern in
    let (lb, wb) = specificity b.pattern in eqb la lb && eqb wa wb

-- The sort key of `resolve`: the rank, then the pattern.
pub rule_leb : DatasetRule → DatasetRule → Bool
unfolding rank_ltb rank_eqb
rule_leb a b = rank_ltb a b || (rank_eqb a b && str_leb a.pattern b.pattern)

pub record Resolution : Type 0 where
  pub unique_id : String
  pub rule : Option DatasetRule
  pub candidates : List DatasetRule

unfoldable pub ambiguous_among : List DatasetRule → Bool
unfolding rank_eqb
ambiguous_among [] = false
ambiguous_among (a ∷ []) = false
ambiguous_among (a ∷ b ∷ rest) = rank_eqb a b

unfoldable pub is_some {ℓ} : {A : Type ℓ} → Option A → Bool
is_some none = false
is_some (some a) = true

unfoldable pub ambiguous : Resolution → Bool
unfolding ambiguous_among
ambiguous r = ambiguous_among r.candidates

unfoldable pub owned : Resolution → Bool
unfolding ambiguous is_some
owned r = is_some r.rule && not (ambiguous r)

pub record Registry : Type 0 where
  pub teams : Dict Team
  pub rules : List DatasetRule

pub first_of_all : List DatasetRule → Option DatasetRule
first_of_all [] = none
first_of_all (a ∷ rest) = some a

module _ (fnmatchcase : String → String → Bool) where
  unfoldable pub candidates_for : List DatasetRule → String → List DatasetRule
  unfolding rule_leb
  candidates_for rules unique_id =
      sort_by rule_leb (keep (λ rule. fnmatchcase unique_id rule.pattern) rules)

  unfoldable pub resolve : Registry → String → Resolution
  unfolding candidates_for first_of_all
  resolve registry unique_id =
      let candidates = candidates_for registry.rules unique_id in
      record { unique_id = unique_id; rule = first_of_all candidates; candidates = candidates }

  unfoldable pub team_of_dataset : Registry → String → Option String
  unfolding resolve
  team_of_dataset registry unique_id = elim (resolve registry unique_id).rule [
    | none ↦ none
    | some rule ↦ some rule.team
  ]

unfoldable pub team_of : Dict Team → String → Option String
team_of [] person = none
team_of ((id, team) ∷ teams) person =
    let rest = team_of teams person in if contains person team.members then some team.id else rest

pub data Problem : Type 0 where
  unknown_team owner_not_member backup_not_member : Problem

-- Whether the rule's backup is not another member of its team.
bad_backup : Option String → String → List String → Bool
bad_backup none owner members = false
bad_backup (some backup) owner members = not (contains backup members) || (backup == owner)

unfoldable pub problem_of : Dict Team → DatasetRule → Option Problem
unfolding bad_backup
problem_of teams rule = elim (get rule.team teams) [
  | none ↦ some unknown_team
  | some team ↦
      if not (contains rule.owner team.members)
      then some owner_not_member
      else if bad_backup rule.backup rule.owner team.members
      then some backup_not_member
      else none
]

unfoldable pub problems_among : Dict Team → List DatasetRule → List (DatasetRule × Problem)
unfolding problem_of
problems_among teams [] = []
problems_among teams (rule ∷ rules) =
    let rest = problems_among teams rules in
    elim (problem_of teams rule) [ none ↦ rest | some p ↦ (rule, p) ∷ rest ]

unfoldable pub rule_problems : Registry → List (DatasetRule × Problem)
unfolding problems_among
rule_problems registry = problems_among registry.teams registry.rules

count_of : String → List String → ℕ
count_of x [] = 0
count_of x (y ∷ ys) = (if x == y then 1 else 0) + count_of x ys

-- {p for p in patterns if patterns.count(p) > 1}, as the two validators compute it: the file is
-- refused unless it is empty.
unfoldable pub duplicated : List String → List String
unfolding count_of
duplicated names = keep (λ p. ltb 1 (count_of p names)) names
