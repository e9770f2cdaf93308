-- ===== src/Examples/Ownership.antt =====
-- Instances of what is proved of src/platform_ops/metadata/registry.py and src/platform_ops/metadata/check.py.
use data_platform_ops.Prelude.{true, false, [], ◌∷◌, ◌≡◌, ◌↔◌, All, refl, arith}
use data_platform_ops.Metadata.Registry.{resolve, owned, candidates_for, rank_ltb}
use data_platform_ops.Metadata.Registry.Resolve.{Wins, resolve-Wins, resolve-swap}
use data_platform_ops.Metadata.Registry.Specificity.{literal-not-outranked}
use data_platform_ops.Metadata.Check.{passed, run_check, owned_nodes}
use data_platform_ops.Metadata.Check.Passed.{HasOwner, HasNoProblem, run_check-passed}
use data_platform_ops.Examples.Samples.{raw_id, stg_id, nodes, registry, same_text, rule_of}

resolve-Wins_example :
    Wins (resolve same_text registry stg_id).candidates (resolve same_text registry stg_id).rule
unfolding owned resolve candidates_for
resolve-Wins_example = resolve-Wins same_text registry stg_id refl

resolve-swap_example :
    resolve same_text
      (record registry { rules = rule_of raw_id "ana" ∷ rule_of stg_id "bo" ∷ [] })
      stg_id
    ≡ resolve same_text
        (record registry { rules = rule_of stg_id "bo" ∷ rule_of raw_id "ana" ∷ [] })
        stg_id
resolve-swap_example =
    resolve-swap same_text registry (rule_of raw_id "ana") (rule_of stg_id "bo") [] [] stg_id
      (λ e. cc)

literal-not-outranked_example : rank_ltb (rule_of "model.*" "bo") (rule_of stg_id "ana") ≡ false
literal-not-outranked_example =
    literal-not-outranked (rule_of stg_id "ana") (rule_of "model.*" "bo") refl (omega arith)

run_check-passed_example :
    (passed (run_check same_text registry nodes) ≡ true)
    ↔ (HasNoProblem registry × All (HasOwner same_text registry) (owned_nodes nodes))
run_check-passed_example = run_check-passed same_text registry nodes
