-- ===== src/Metadata/Registry/Specificity.antt =====
-- `specificity` of src/platform_ops/metadata/registry.py.
use Prim.Native.Char.{Char, code}
use data_platform_ops.Prelude.{
  ℕ, zero, suc, ◌+◌, ◌≤◌, String, ◌≡◌, Bool, true, false, ◌&&◌, not, eqb, arith, ◌||◌,
}
use data_platform_ops.Metadata.Registry.{
  specificity_from, specificity, token, DatasetRule, rank_ltb,
}

-- len(pattern)
abbrev pub characters : String → ℕ
characters String.[] = 0
characters (String.◌∷◌ c s) = suc (characters s)

-- No character that `specificity` treats as a wildcard's beginning.
abbrev pub is_literal : String → Bool
is_literal String.[] = true
is_literal (String.◌∷◌ c s) =
    not (eqb (code c) b'*' || (eqb (code c) b'?' || eqb (code c) b'[')) && is_literal s

token_one : (c : Char) (s : String) → (token c s).literal + (token c s).wildcards ≡ 1
unfolding token
token_one c s = ground arith

specificity_from-le :
    (s : String) (skip l w : ℕ)
    → (specificity_from s skip l w).0 + (specificity_from s skip l w).1 ≤ l + w + characters s
unfolding specificity_from
specificity_from-le String.[] skip l w = omega arith
specificity_from-le (String.◌∷◌ c s) (suc skip) l w = ground (arith, specificity_from-le s skip l w)
specificity_from-le (String.◌∷◌ c s) zero l w =
    let t = token c s in
    omega (arith, token_one c s, specificity_from-le s t.skip (l + t.literal) (w + t.wildcards))

specificity_from-literal :
    (s : String) (l w : ℕ) → is_literal s ≡ true → specificity_from s 0 l w ≡ (l + characters s, w)
unfolding specificity_from
specificity_from-literal String.[] l w h = ground arith
specificity_from-literal (String.◌∷◌ c s) l w h =
    ground (arith, specificity_from-literal s (l + 1) w)

-- A rule whose pattern is a plain id is never outranked by a pattern that is no longer.
pub literal-not-outranked :
    (a b : DatasetRule)
    → is_literal a.pattern ≡ true
    → characters b.pattern ≤ characters a.pattern
    → rank_ltb b a ≡ false
unfolding rank_ltb specificity
literal-not-outranked a b h le =
    ground (arith, specificity_from-literal a.pattern 0 0 h, specificity_from-le b.pattern 0 0 0)
