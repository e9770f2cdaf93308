-- ===== src/Metadata/Check/Passed.antt =====
-- When `run_check` of src/platform_ops/metadata/check.py passes.
use data_platform_ops.Prelude.{
  String, ◌≡◌, refl, ◌↔◌, inl, inr, Bool, true, false, Option, none, some, List, [], ◌∷◌, ◌++◌, All,
  Dict, arith, eq_iff, Option-cases, ◌==◌, Bool-cases,
}
use data_platform_ops.Metadata.Manifest.{Node}
use data_platform_ops.Metadata.Registry.{
  DatasetRule, Registry, Problem, resolve, rule_problems, ambiguous, problem_of, problems_among,
  Team,
}
use data_platform_ops.Metadata.Check.{
  Finding, CheckReport, passed, owned_nodes, finding_of, same_owner, problem_findings,
  node_findings, run_check,
}

-- The dataset has exactly one owner, and an exposure's own `owner` in dbt agrees with it.
pub record HasOwner (fnmatchcase : String → String → Bool) (registry : Registry) (node : Node)
    : Type 0 where
  pub rule : DatasetRule
  pub resolved : (resolve fnmatchcase registry node.unique_id).rule ≡ some rule
  pub unambiguous : ambiguous (resolve fnmatchcase registry node.unique_id) ≡ false
  pub agrees : node.resource_type ≡ "exposure" → node.owner_name ≡ some rule.owner

-- The registry's rules name teams that exist, and members of them.
abbrev pub HasNoProblem : Registry → Type 0
HasNoProblem registry = All (λ rule. problem_of registry.teams rule ≡ none) registry.rules

same_owner_iff : (o : Option String) (s : String) → (same_owner o s ≡ true) ↔ (o ≡ some s)
unfolding same_owner
same_owner_iff none s = (λ e. cc, λ e. cc)
same_owner_iff (some name) s = ground (arith, eq_iff name s)

finding_of-none :
    (fnmatchcase : String → String → Bool) (registry : Registry) (node : Node)
    → finding_of node (resolve fnmatchcase registry node.unique_id) ≡ none
    → HasOwner fnmatchcase registry node
unfolding finding_of
finding_of-none fnmatchcase registry node e =
    elim (Option-cases (resolve fnmatchcase registry node.unique_id).rule) [
      | inl missing ↦ absurd (ground arith)
      | inr (rule, found) ↦ record {
        rule = rule;
        resolved = found;
        unambiguous = ground arith;
        agrees = λ exposure. ground (
          arith,
          eq_iff node.resource_type "exposure",
          same_owner_iff node.owner_name rule.owner,
        );
      }
    ]

finding_of-HasOwner :
    (fnmatchcase : String → String → Bool) (registry : Registry) (node : Node)
    → HasOwner fnmatchcase registry node
    → finding_of node (resolve fnmatchcase registry node.unique_id) ≡ none
unfolding finding_of
finding_of-HasOwner fnmatchcase registry node h =
    elim (Bool-cases (node.resource_type == "exposure")) [
      | inl exposure ↦
          let named = h.agrees ((eq_iff node.resource_type "exposure").0 exposure) in
          let same = (same_owner_iff node.owner_name h.rule.owner).1 named in
          ground (arith, h.resolved, h.unambiguous)
      | inr other ↦ ground (arith, h.resolved, h.unambiguous)
    ]

problems-nil :
    (teams : Dict Team) (rules : List DatasetRule)
    → (problems_among teams rules ≡ []) ↔ All (λ rule. problem_of teams rule ≡ none) rules
unfolding problems_among
problems-nil teams [] = (λ e. tt, λ a. refl)
problems-nil teams (rule ∷ rules) = (
  λ e. (ground arith, (problems-nil teams rules).0 (ground arith)),
  λ a. let rest = (problems-nil teams rules).1 a.1 in ground (arith, a.0),
)

node_findings-nil :
    (fnmatchcase : String → String → Bool) (registry : Registry) (nodes : List Node)
    → (node_findings fnmatchcase registry nodes ≡ []) ↔ All (HasOwner fnmatchcase registry) nodes
unfolding node_findings
node_findings-nil fnmatchcase registry [] = (λ e. tt, λ a. refl)
node_findings-nil fnmatchcase registry (node ∷ nodes) = (
  λ e. (
    finding_of-none fnmatchcase registry node (ground arith),
    (node_findings-nil fnmatchcase registry nodes).0 (ground arith),
  ),
  λ a.
      let rest = (node_findings-nil fnmatchcase registry nodes).1 a.1 in
      let here_ = finding_of-HasOwner fnmatchcase registry node a.0 in ground arith,
)

passed-nil : (report : CheckReport) → (passed report ≡ true) ↔ (report.error_findings ≡ [])
unfolding passed
passed-nil report = ground arith

append-nil :
    (ps : List (DatasetRule × Problem)) (fs : List Finding)
    → (problem_findings ps ++ fs ≡ []) ↔ ((ps ≡ []) × (fs ≡ []))
unfolding problem_findings
append-nil [] fs = (λ e. (refl, e), λ b. b.1)
append-nil ((rule, p) ∷ ps) fs = (λ e. cc, λ b. cc)

-- `metadata check` passes exactly when no rule has a problem and every dataset of the manifest has
-- exactly one owner, whom its exposure names.
pub run_check-passed :
    (fnmatchcase : String → String → Bool) (registry : Registry) (nodes : Dict Node)
    → (passed (run_check fnmatchcase registry nodes) ≡ true)
      ↔ (HasNoProblem registry × All (HasOwner fnmatchcase registry) (owned_nodes nodes))
unfolding run_check rule_problems
run_check-passed fnmatchcase registry nodes = (
  λ h.
      let empty = (passed-nil (run_check fnmatchcase registry nodes)).0 h in
      let (ps, fs) =
        (append-nil (rule_problems registry)
            (node_findings fnmatchcase registry (owned_nodes nodes))).0
          empty in
      (
        (problems-nil registry.teams registry.rules).0 ps,
        (node_findings-nil fnmatchcase registry (owned_nodes nodes)).0 fs,
      ),
  λ b.
      let ps = (problems-nil registry.teams registry.rules).1 b.0 in
      let fs = (node_findings-nil fnmatchcase registry (owned_nodes nodes)).1 b.1 in
      (passed-nil (run_check fnmatchcase registry nodes)).1 (
        (append-nil (rule_problems registry)
            (node_findings fnmatchcase registry (owned_nodes nodes))).1
          (ps, fs)),
)
