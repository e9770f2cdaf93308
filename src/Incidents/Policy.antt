-- ===== src/Incidents/Policy.antt =====
-- src/platform_ops/incidents/severity.py: how bad an incident is, and what raises it. A moment is its instant, in seconds,
-- with its calendar day; `IncidentPolicy.load` only reads files.
pub mod Scores
use data_platform_ops.Prelude.{
  ℕ, suc, ◌+◌, ◌-◌, ◌*◌, ◌%◌, String, Bool, true, false, ◌&&◌, ◌||◌, Option, none, some, List, [],
  ◌∷◌, contains, keep, if◌then◌else◌, Dict, get, or_default, ltb, leb, eqb, ◌==◌, not,
}
use data_platform_ops.Metadata.Manifest.{Node}
use data_platform_ops.Metadata.Graph.{Digraph, Networkx, has_node}
use data_platform_ops.Metadata.Lineage.{
  Tier, TierWeights, weight, Consumer, downstream_consumers, consumer_weight,
}

pub data Severity : Type 0 where
  sev1 sev2 sev3 : Severity

abbrev pub default_tier : Tier
default_tier = Tier.best_effort

pub record Date : Type 0 where
  pub year : ℕ
  pub month : ℕ
  pub day : ℕ

pub record Moment : Type 0 where
  pub instant : ℕ
  pub date : Date

is_leap : ℕ → Bool
is_leap year = (eqb (year % 4) 0 && not (eqb (year % 100) 0)) || eqb (year % 400) 0

-- calendar.monthrange(year, month)[1]
unfoldable pub days_in_month : ℕ → ℕ → ℕ
unfolding is_leap
days_in_month year month =
    if eqb month 2
    then (if is_leap year then 29 else 28)
    else if eqb month 4 || (eqb month 6 || (eqb month 9 || eqb month 11))
    then 30
    else 31

pub record Window : Type 0 where
  pub name : String
  pub team : String
  pub last_days : ℕ
  pub first_days : ℕ

-- `day > days_in_month - last_days`, with the subtraction moved to the other side.
unfoldable pub open_on : Window → Date → Bool
open_on w date =
    leb date.day w.first_days || ltb (days_in_month date.year date.month) (date.day + w.last_days)

pub record SeveritySettings : Type 0 where
  pub root_tier_multiplier : ℕ
  pub sev1_min_score : ℕ
  pub sev2_min_score : ℕ

-- `_ordered`: the settings are refused otherwise.
unfoldable pub thresholds_ordered : SeveritySettings → Bool
thresholds_ordered s = not (ltb s.sev1_min_score s.sev2_min_score)

pub record IncidentPolicy : Type 0 where
  pub severity : SeveritySettings
  pub tier_weights : TierWeights
  -- escalation.after_hours.get(severity)
  pub after_hours : Severity → Option ℕ
  pub windows : List Window

pub record Scored : Type 0 where
  pub score : ℕ
  pub severity : Severity
  pub root_tier : Tier
  pub consumers : List Consumer

-- `node.attached_node` counts when it is a text that is not empty.
attached : Option String → String → String
attached none root = root
attached (some n) root = if n == "" then root else n

unfoldable pub dataset_of : String → Dict Node → String
unfolding attached
dataset_of root nodes = elim (get root nodes) [
  | none ↦ root
  | some node ↦ if node.resource_type == "test" then attached node.attached_node root else root
]

unfoldable pub severity_for : ℕ → IncidentPolicy → Severity
severity_for score policy =
    if leb policy.severity.sev1_min_score score
    then sev1
    else if leb policy.severity.sev2_min_score score
    then sev2
    else sev3

unfoldable pub score_incident :
    Networkx → Digraph → String → Dict Node → Dict Tier → IncidentPolicy → Scored
score_incident nx graph root nodes tier_of policy =
    let dataset = dataset_of root nodes in
    let root_tier = or_default default_tier (get dataset tier_of) in
    let consumers =
      if has_node graph dataset
      then downstream_consumers nx graph dataset tier_of policy.tier_weights default_tier
      else [] in
    let score =
      policy.severity.root_tier_multiplier * weight policy.tier_weights root_tier
      + consumer_weight consumers in
    record {
      score = score;
      severity = severity_for score policy;
      root_tier = root_tier;
      consumers = consumers;
    }

-- SEVERITIES[max(0, SEVERITIES.index(severity) - 1)]
unfoldable pub raised : Severity → Severity
raised sev1 = sev1
raised sev2 = sev1
raised sev3 = sev2

-- `since` and `at` in seconds; `at - since >= hours` with the difference moved over.
unfoldable pub overdue : Severity → ℕ → ℕ → IncidentPolicy → Bool
overdue severity since at policy = elim (policy.after_hours severity) [
  | none ↦ false
  | some hours ↦ leb (since + hours * 3600) at
]

teams_reached : (String → Option String) → List Consumer → List String
teams_reached team_of [] = []
teams_reached team_of (c ∷ cs) =
    let rest = teams_reached team_of cs in
    elim (team_of c.unique_id) [ none ↦ rest | some team ↦ team ∷ rest ]

unfoldable pub open_windows :
    List Consumer → Moment → IncidentPolicy → (String → Option String) → List Window
unfolding teams_reached
open_windows consumers at policy team_of =
    keep (λ w. contains w.team (teams_reached team_of consumers) && open_on w at.date)
      policy.windows
