-- ===== src/Metadata/Check.antt =====
-- `run_check` of src/platform_ops/metadata/check.py. A finding is a value that names what it is about in place of
-- its message and suggested fix.
pub mod Passed
use data_platform_ops.Prelude.{
  ℕ, suc, String, Bool, true, false, not, ◌&&◌, ◌||◌, Option, none, some, List, [], ◌∷◌, ◌++◌, map,
  contains, keep, length, sum_of, if◌then◌else◌, Dict, get, values, sort_by, str_leb, ◌==◌,
  or_default,
}
use data_platform_ops.Metadata.Manifest.{Node, owned_types}
use data_platform_ops.Metadata.Registry.{
  DatasetRule, Registry, Resolution, Problem, resolve, rule_problems, ambiguous, owned,
}

pub data Finding : Type 0 where
  rule_problem : DatasetRule → Problem → Finding
  no_owner : String → Finding
  ambiguous_ownership : String → Finding
  exposure_owner_differs : String → Finding
  rule_matches_nothing : DatasetRule → Finding

pub record CheckReport : Type 0 where
  pub error_findings : List Finding
  pub warning_findings : List Finding
  pub resolutions : Dict Resolution
  pub coverage : List (String × ℕ × ℕ)

unfoldable pub passed : CheckReport → Bool
passed report = elim report.error_findings [ [] ↦ true | f ∷ fs ↦ false ]

-- [node for node in nodes.values() if node.resource_type in owned_types], sorted by unique id
unfoldable pub owned_nodes : Dict Node → List Node
owned_nodes nodes =
    sort_by (λ a b. str_leb a.unique_id b.unique_id)
      (keep (λ node. contains node.resource_type owned_types) (values nodes))

same_owner : Option String → String → Bool
same_owner none owner = false
same_owner (some name) owner = name == owner

-- The `if`, `elif` chain over one dataset.
unfoldable pub finding_of : Node → Resolution → Option Finding
unfolding same_owner
finding_of node resolution = elim resolution.rule [
  | none ↦ some (no_owner node.unique_id)
  | some rule ↦
      if ambiguous resolution
      then some (ambiguous_ownership node.unique_id)
      else if (node.resource_type == "exposure") && not (same_owner node.owner_name rule.owner)
      then some (exposure_owner_differs node.unique_id)
      else none
]

problem_findings : List (DatasetRule × Problem) → List Finding
problem_findings [] = []
problem_findings ((rule, p) ∷ rest) = rule_problem rule p ∷ problem_findings rest

broken_patterns : List (DatasetRule × Problem) → List String
broken_patterns [] = []
broken_patterns ((rule, p) ∷ rest) = rule.pattern ∷ broken_patterns rest

-- `_valid`: owned, and by a rule with no problem.
valid : Resolution → List String → Bool
valid resolution broken =
    owned resolution
    && elim resolution.rule [ none ↦ false | some rule ↦ not (contains rule.pattern broken) ]

module _ (fnmatchcase : String → String → Bool) where
  node_findings : Registry → List Node → List Finding
  unfolding finding_of
  node_findings registry [] = []
  node_findings registry (node ∷ nodes) =
      let rest = node_findings registry nodes in
      elim (finding_of node (resolve fnmatchcase registry node.unique_id)) [
        | none ↦ rest
        | some f ↦ f ∷ rest
      ]

  resolutions_of : Registry → List Node → Dict Resolution
  resolutions_of registry [] = []
  resolutions_of registry (node ∷ nodes) =
      (node.unique_id, resolve fnmatchcase registry node.unique_id) ∷ resolutions_of registry nodes

  -- matched_patterns.update(rule.match for rule in resolution.candidates)
  matched_patterns : Registry → List Node → List String
  matched_patterns registry [] = []
  matched_patterns registry (node ∷ nodes) =
      map (λ rule. rule.pattern) (resolve fnmatchcase registry node.unique_id).candidates
      ++ matched_patterns registry nodes

  unmatched : List String → List DatasetRule → List Finding
  unmatched matched [] = []
  unmatched matched (rule ∷ rules) =
      let rest = unmatched matched rules in
      if contains rule.pattern matched then rest else rule_matches_nothing rule ∷ rest

  -- (owned, all) of one resource type
  coverage_of : Registry → List String → List Node → String → String × ℕ × ℕ
  unfolding valid
  coverage_of registry broken nodes resource_type =
      let of_type = keep (λ node. node.resource_type == resource_type) nodes in
      let counted =
        keep (λ node. valid (resolve fnmatchcase registry node.unique_id) broken) of_type in
      (resource_type, length counted, length of_type)

  unfoldable pub run_check : Registry → Dict Node → CheckReport
  unfolding node_findings resolutions_of matched_patterns unmatched coverage_of problem_findings
      broken_patterns
  run_check registry nodes =
      let problems = rule_problems registry in
      let datasets = owned_nodes nodes in
      record {
        error_findings = problem_findings problems ++ node_findings registry datasets;
        warning_findings = unmatched (matched_patterns registry datasets) registry.rules;
        resolutions = resolutions_of registry datasets;
        coverage = map (coverage_of registry (broken_patterns problems) datasets) owned_types;
      }
