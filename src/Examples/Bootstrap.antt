-- ===== src/Examples/Bootstrap.antt =====
-- A small folder of models for src/platform_ops/metadata/bootstrap.py, with a matcher of literals and of prefixes.
use Prim.Native.Char.{code, char}
use data_platform_ops.Prelude.{
  String, Bool, true, false, ◌≡◌, refl, ap, arith, none, some, List, [], ◌∷◌, sum_of, eqb,
  if◌then◌else◌, startswith, add_text, ◌==◌,
}
use data_platform_ops.Metadata.Bootstrap.{
  cover, cover_group, prefix_fits, prefix_pattern, inside, model_id, common_prefix, parts_of, scan,
  add_char,
}
use data_platform_ops.Metadata.Bootstrap.Names.{plain}
use data_platform_ops.Metadata.Bootstrap.Cover.{named, cover-exact}
use data_platform_ops.Metadata.Bootstrap.Finished.{cover-finishes}
use data_platform_ops.Metadata.Bootstrap.Underscore.{hidden, cover-endless}

abbrev ends_star : String → Bool
ends_star String.[] = false
ends_star (String.◌∷◌ c String.[]) = eqb (code c) b'*'
ends_star (String.◌∷◌ c (String.◌∷◌ d s)) = ends_star (String.◌∷◌ d s)

abbrev drop_last : String → String
drop_last String.[] = String.[]
drop_last (String.◌∷◌ c String.[]) = String.[]
drop_last (String.◌∷◌ c (String.◌∷◌ d s)) = String.◌∷◌ c (drop_last (String.◌∷◌ d s))

matches_example : String → String → Bool
matches_example i p = if ends_star p then startswith i (drop_last p) else i == p

no_star : (p : String) → plain p ≡ true → ends_star p ≡ false
no_star String.[] h = refl
no_star (String.◌∷◌ c String.[]) h = ground arith
no_star (String.◌∷◌ c (String.◌∷◌ d s)) h = no_star (String.◌∷◌ d s) (ground arith)

star_last : (p : String) → (ends_star (add_text p "*") ≡ true) × (drop_last (add_text p "*") ≡ p)
unfolding add_text
star_last String.[] = (refl, refl)
star_last (String.◌∷◌ c String.[]) = (refl, refl)
star_last (String.◌∷◌ c (String.◌∷◌ d s)) =
    let rest = star_last (String.◌∷◌ d s) in (rest.0, ap (String.◌∷◌ c) rest.1)

matches_literal : (j p : String) → plain p ≡ true → matches_example j p ≡ (j == p)
unfolding matches_example
matches_literal j p h = rw (no_star p h) refl

matches_prefix :
    (j p : String) → plain p ≡ true → matches_example j (add_text p "*") ≡ startswith j p
unfolding matches_example
matches_prefix j p h = let last = star_last p in rw (last.0, last.1) refl

abbrev model_names : List String
model_names = "rpt_churn" ∷ "rpt_sales" ∷ []

abbrev model_ids : List String
model_ids = "model.shop.rpt_churn" ∷ "model.shop.rpt_sales" ∷ "model.shop.stg_orders" ∷ []

one_pattern :
    cover matches_example model_ids "shop" 3 model_names 0 ≡ some ("model.shop.rpt_*" ∷ [])
unfolding cover cover_group prefix_fits prefix_pattern inside model_id common_prefix matches_example
    add_text startswith
one_pattern = refl

cover-exact_example :
    sum_of
      (λ p. if matches_example "model.shop.rpt_sales" p then 1 else 0)
      ("model.shop.rpt_*" ∷ [])
    ≡ named "shop" "model.shop.rpt_sales" model_names
unfolding model_id add_text
cover-exact_example =
    cover-exact matches_example model_ids "shop" "model.shop.rpt_sales" 3 model_names 0
      ("model.shop.rpt_*" ∷ []) matches_literal matches_prefix refl (refl, (refl, tt)) (omega arith)
      one_pattern

cover-finishes_example :
    (patterns : List String) × (cover matches_example model_ids "shop" 4 model_names 0
      ≡ some patterns)
unfolding parts_of scan add_char
cover-finishes_example =
    cover-finishes matches_example model_ids "shop" 2 model_names
      ((refl, omega arith), ((refl, omega arith), tt))

cover-endless_example :
    cover matches_example
      ("model.shop._a" ∷ "model.shop.a" ∷ [])
      "shop"
      100
      (hidden "a" ∷ "a" ∷ [])
      0
    ≡ none
cover-endless_example =
    cover-endless matches_example ("model.shop._a" ∷ "model.shop.a" ∷ []) "shop" (char 97 tt) ""
      refl 100 0
