-- ===== src/Metadata/Registry/Resolve.antt =====
-- `Registry.resolve` of src/platform_ops/metadata/registry.py: the most specific rule wins, and the order of the
-- file has no say.
use data_platform_ops.Prelude.{
  String, ◌≡◌, ◌≢◌, refl, ap, Bool, true, false, Option, none, some, List, [], ◌∷◌, ◌++◌, All,
  All-map_of, Ordered, sort_by, sort_by-Ordered, sort_by-swap, str_leb, str_leb_total,
  str_leb_trans, str_leb_antisym, arith, keep, ◌&&◌, not,
}
use data_platform_ops.Metadata.Registry.{
  DatasetRule, Registry, rank_ltb, rank_eqb, rule_leb, ambiguous_among, ambiguous, owned, is_some,
  candidates_for, resolve, first_of_all,
}

rule_leb_total : (a b : DatasetRule) → rule_leb a b ≡ false → rule_leb b a ≡ true
unfolding rule_leb
rule_leb_total a b h = ground (arith, str_leb_total a.pattern b.pattern)

rule_leb_trans :
    (a b c : DatasetRule) → rule_leb a b ≡ true → rule_leb b c ≡ true → rule_leb a c ≡ true
unfolding rule_leb
rule_leb_trans a b c h k = ground (arith, str_leb_trans a.pattern b.pattern c.pattern)

-- Rules with different patterns are never tied in the sort.
rule_leb_apart :
    (a b : DatasetRule) → a.pattern ≢ b.pattern → rule_leb a b ≡ true → rule_leb b a ≡ false
unfolding rule_leb
rule_leb_apart a b ne h = go (rule_leb b a) refl
  where
    go : (t : Bool) → rule_leb b a ≡ t → t ≡ false
    go false e = refl
    go true e =
        let both : (str_leb a.pattern b.pattern ≡ true) × (str_leb b.pattern a.pattern ≡ true) =
          (ground arith, ground arith) in
        absurd (ne (str_leb_antisym a.pattern b.pattern both.0 both.1))

rank_ltb-next :
    (a b c : DatasetRule) → rank_ltb a b ≡ true → rule_leb b c ≡ true → rank_ltb a c ≡ true
unfolding rule_leb rank_ltb rank_eqb
rank_ltb-next a b c h k = ground arith

first_strict :
    (a b : DatasetRule) → rule_leb a b ≡ true → rank_eqb a b ≡ false → rank_ltb a b ≡ true
unfolding rule_leb
first_strict a b h ne = ground arith

strict_tail :
    (a : DatasetRule) (rest : List DatasetRule)
    → Ordered rule_leb (a ∷ rest)
    → ambiguous_among (a ∷ rest) ≡ false
    → All (λ r. rank_ltb a r ≡ true) rest
unfolding ambiguous_among
strict_tail a [] o h = tt
strict_tail a (b ∷ rest) o h =
    let ab = first_strict a b o.0.0 h in
    (
      ab,
      All-map_of (λ r. rule_leb b r ≡ true) (λ r. rank_ltb a r ≡ true) rest
          (λ r k. rank_ltb-next a b r ab k) o.1.0,
    )

-- The winner is a candidate, and strictly more specific than every other one.
abbrev pub Wins : List DatasetRule → Option DatasetRule → Type 0
Wins [] rule = rule ≡ none
Wins (winner ∷ others) rule = (rule ≡ some winner) × All (λ r. rank_ltb winner r ≡ true) others

-- A dataset that is owned goes to the one candidate that beats all the others on specificity.
pub resolve-Wins :
    (fnmatchcase : String → String → Bool) (registry : Registry) (unique_id : String)
    → owned (resolve fnmatchcase registry unique_id) ≡ true
    → Wins
        (resolve fnmatchcase registry unique_id).candidates
        (resolve fnmatchcase registry unique_id).rule
unfolding resolve owned ambiguous is_some candidates_for first_of_all
resolve-Wins fnmatchcase registry unique_id =
    go (sort_by rule_leb (keep (λ rule. fnmatchcase unique_id rule.pattern) registry.rules)) (
      sort_by-Ordered rule_leb rule_leb_total rule_leb_trans
        (keep (λ rule. fnmatchcase unique_id rule.pattern) registry.rules))
  where
    go :
        (cs : List DatasetRule)
        → Ordered rule_leb cs
        → (is_some (first_of_all cs) && not (ambiguous_among cs)) ≡ true
        → Wins cs (first_of_all cs)
    go [] o h = refl
    go (c ∷ cs) o h = (refl, strict_tail c cs o (ground arith))

-- Exchanging two neighbouring rules of different patterns changes no resolution.
pub resolve-swap :
    (fnmatchcase : String → String → Bool) (registry : Registry) (a b : DatasetRule)
    (before after : List DatasetRule) (unique_id : String)
    → a.pattern ≢ b.pattern
    → resolve fnmatchcase (record registry { rules = before ++ (a ∷ b ∷ after) }) unique_id
      ≡ resolve fnmatchcase (record registry { rules = before ++ (b ∷ a ∷ after) }) unique_id
unfolding resolve candidates_for
resolve-swap fnmatchcase registry a b before after unique_id ne =
    ap (λ cs. record { unique_id = unique_id; rule = first_of_all cs; candidates = cs })
      (sort_by-swap rule_leb rule_leb_total rule_leb_trans
        (λ rule. fnmatchcase unique_id rule.pattern) a b before after (rule_leb_apart a b ne))
