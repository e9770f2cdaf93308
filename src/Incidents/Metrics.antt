-- ===== src/Incidents/Metrics.antt =====
-- src/platform_ops/incidents/metrics.py: incidents graded against the faults that caused them. Instants are seconds, an
-- incident's id is its number, and a delay is its seconds: the means over hours, which are floats, are left out.
pub mod Graded
use data_platform_ops.Prelude.{
  ℕ, ◌+◌, ◌-◌, String, Bool, true, false, not, ◌&&◌, ◌||◌, Option, none, some, List, [], ◌∷◌, ◌++◌,
  map, keep, contains, all_of, length, has_num, sum_of, if◌then◌else◌, Dict, get, put, or_default,
  sort_by, str_leb, leb, eqb, ◌==◌,
}
use data_platform_ops.Metadata.Manifest.{Node}
use data_platform_ops.Metadata.Graph.{Digraph, Networkx}
use data_platform_ops.Metadata.Lineage.{upstream}
use data_platform_ops.Metadata.Registry.{Registry, DatasetRule, resolve}
use data_platform_ops.Incidents.Events.{CheckEvent}
use data_platform_ops.Incidents.Policy.{Severity, dataset_of}
use data_platform_ops.Incidents.Desk.Tables.{Incident, Notice, NoticeKind, same_kind, is_none}

pub record FaultTruth : Type 0 where
  pub fault_id : String
  pub fault_type : String
  pub target : String
  pub source_id : String
  pub expected_check : String
  pub injected_at : ℕ
  pub repaired_at : Option ℕ
  pub owner : String
  pub team : String

pub record FaultOutcome : Type 0 where
  pub truth : FaultTruth
  pub incident_ids : List ℕ

pub record Accuracy : Type 0 where
  pub correct : ℕ
  pub total : ℕ

-- What `History` holds of the store.
pub record History : Type 0 where
  pub incidents : List Incident
  pub events : List CheckEvent
  pub notifications : List Notice

pub record IncidentMetrics : Type 0 where
  pub raw_alerts : ℕ
  pub incidents : ℕ
  pub pages : ℕ
  pub faults : List FaultOutcome
  pub unmatched_incidents : List ℕ
  pub routing_person : Accuracy
  pub routing_team : Accuracy
  pub naive_person : Accuracy
  pub naive_team : Accuracy
  pub mttd : List (Severity × ℕ)
  pub mttr : List (Severity × ℕ)
  pub unresolved : List ℕ
  pub alerts_before : Dict ℕ
  pub alerts_after : Dict ℕ

unfoldable pub numbers_of : List Incident → List ℕ
numbers_of [] = []
numbers_of (i ∷ is) = i.seq ∷ numbers_of is

is_empty : List ℕ → Bool
is_empty [] = true
is_empty (n ∷ ns) = false

unfoldable pub one_incident_per_fault : IncidentMetrics → Bool
unfolding is_empty
one_incident_per_fault m =
    all_of (λ f. eqb (length f.incident_ids) 1) m.faults && is_empty m.unmatched_incidents

unfoldable pub matched_ids : List FaultOutcome → List ℕ
matched_ids [] = []
matched_ids (f ∷ fs) = f.incident_ids ++ matched_ids fs

accuracy : List (String × String) → Accuracy
accuracy pairs = record { correct = length (keep (λ p. p.0 == p.1) pairs); total = length pairs }

unfoldable pub unowned : String
unowned = "unowned"

-- Counter()[key] += 1
unfoldable pub count_one : String → Dict ℕ → Dict ℕ
count_one key counter = put key (or_default 0 (get key counter) + 1) counter

owner_of_rule : Option DatasetRule → String
unfolding unowned
owner_of_rule none = unowned
owner_of_rule (some rule) = rule.owner

pages_by_recipient : List Notice → Dict ℕ → Dict ℕ
unfolding count_one
pages_by_recipient [] counter = counter
pages_by_recipient (n ∷ notices) counter =
    pages_by_recipient notices
      (if same_kind n.kind NoticeKind.page then count_one n.recipient counter else counter)

-- The seconds from each resolved incident's opening to its resolution.
repair_times : List Incident → List (Severity × ℕ)
repair_times [] = []
repair_times (i ∷ is) = elim i.resolved_at [
  | none ↦ repair_times is
  | some t ↦ (i.severity, t - i.opened_at) ∷ repair_times is
]

module _ (nx : Networkx) (fnmatchcase : String → String → Bool) where
  -- `_caused_by`
  unfoldable pub caused_by : Digraph → ℕ → FaultTruth → Incident → Bool
  unfolding upstream
  caused_by graph end truth i =
      (contains truth.source_id (upstream nx graph i.root) || (truth.source_id == i.root))
      && (leb truth.injected_at i.opened_at && leb i.opened_at (or_default end truth.repaired_at))

  unfoldable pub outcome_of : Digraph → ℕ → List Incident → FaultTruth → FaultOutcome
  outcome_of graph end incidents truth = record {
    truth = truth;
    incident_ids = numbers_of (keep (caused_by graph end truth) incidents);
  }

  -- The truth and the incident of each match.
  graded_of : List Incident → List FaultOutcome → List (FaultTruth × Incident)
  graded_of incidents [] = []
  graded_of incidents (f ∷ fs) =
      map (λ i. (f.truth, i)) (keep (λ i. has_num i.seq f.incident_ids) incidents)
      ++ graded_of incidents fs

  alerts_by_owner : Dict Node → Registry → List CheckEvent → Dict ℕ → Dict ℕ
  unfolding owner_of_rule count_one
  alerts_by_owner nodes registry [] counter = counter
  alerts_by_owner nodes registry (e ∷ events) counter = alerts_by_owner nodes registry events (
      count_one (owner_of_rule (resolve fnmatchcase registry (dataset_of e.subject nodes)).rule)
        counter)

  unfoldable pub compute :
      History → List FaultTruth → Digraph → Dict Node → Registry → ℕ → IncidentMetrics
  unfolding outcome_of matched_ids numbers_of accuracy alerts_by_owner pages_by_recipient
      repair_times graded_of
  compute history truths graph nodes registry end =
      let faults = map (outcome_of graph end history.incidents) truths in
      let matched = matched_ids faults in
      let graded = graded_of history.incidents faults in
      let after = pages_by_recipient history.notifications [] in
      record {
        raw_alerts = length history.events;
        incidents = length history.incidents;
        pages = sum_of (λ c. c.1) after;
        faults = faults;
        unmatched_incidents =
            numbers_of (keep (λ i. not (has_num i.seq matched)) history.incidents);
        routing_person = accuracy (map (λ g. (g.1.owner, g.0.owner)) graded);
        routing_team = accuracy (map (λ g. (g.1.team, g.0.team)) graded);
        naive_person = accuracy (map (λ g. (g.1.naive_owner, g.0.owner)) graded);
        naive_team = accuracy (map (λ g. (g.1.naive_team, g.0.team)) graded);
        mttd = map (λ g. (g.1.severity, g.1.opened_at - g.0.injected_at)) graded;
        mttr = repair_times history.incidents;
        unresolved = numbers_of (keep (λ i. is_none i.resolved_at) history.incidents);
        alerts_before =
            sort_by (λ a b. str_leb a.0 b.0) (alerts_by_owner nodes registry history.events []);
        alerts_after = sort_by (λ a b. str_leb a.0 b.0) after;
      }
