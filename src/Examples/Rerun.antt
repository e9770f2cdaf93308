-- ===== src/Examples/Rerun.antt =====
-- Instances of what is proved of the second half of src/platform_ops/incidents/desk.py: a later run that finds the model
-- that failed fixed, or failing still.
use data_platform_ops.Prelude.{
  ℕ, ◌≤◌, String, Bool, true, false, Option, none, some, List, [], All, ◌∷◌, Dict, ◌≡◌, ◌⊎◌, refl,
  arith, get, or_default, map,
}
use data_platform_ops.Metadata.Graph.Search.{by_search}
use data_platform_ops.Metadata.Lineage.{Tier}
use data_platform_ops.Incidents.Ingest.{Artifact, Kind}
use data_platform_ops.Incidents.Policy.{
  Severity, sev1, sev2, sev3, Moment, IncidentPolicy, severity_for, raised,
}
use data_platform_ops.Incidents.Routing.{Route, paged}
use data_platform_ops.Incidents.Desk.Tables.{
  Incident, Notice, Text, Store, Result, ok, err, open_hours, raised_to, same_reason,
}
use data_platform_ops.Incidents.Desk.Context.{Context, load}
use data_platform_ops.Incidents.Desk.Escalate.{
  Raises, raise_for, insert_escalation, has_reason, done_for,
}
use data_platform_ops.Incidents.Desk.Transaction.{
  Ingested, IngestResult, ingest_target, nothing_new,
}
use data_platform_ops.Incidents.Events.{CheckEvent}
use data_platform_ops.Incidents.Desk.Regroup.{
  Regrouped, regroup, results_of_run, statuses_from, events_of_run,
}
use data_platform_ops.Incidents.Desk.Regroup.Filed.{IsFiledIn, regroup-IsFiledIn}
use data_platform_ops.Incidents.Desk.Escalate.{escalate}
use data_platform_ops.Incidents.Desk.Escalate.Raised.{AllRaised, escalate-AllRaised}
use data_platform_ops.Incidents.Desk.Writes.Numbers.{end, then_next}
use data_platform_ops.Examples.Samples.{stg_id, same_text}
use data_platform_ops.Examples.Desk.{context, calendar, empty_store}

-- A run after the one that opened an incident at the staging model finds the model fixed.
abbrev pub opened_before : Incident
opened_before = record {
  seq = 1;
  root = stg_id;
  dataset = stg_id;
  severity = sev2;
  score = 10;
  root_tier = Tier.critical;
  owner = "bo";
  team = "data";
  naive_owner = "bo";
  naive_team = "data";
  routed_via = stg_id;
  opened_at = 60;
  opened_by_run = "run-1";
  resolved_at = none;
  resolved_by_run = none;
  merged_into = none;
  previous_incident = none;
  paged = "bo";
}

abbrev fixed_store : Store
fixed_store = record empty_store {
  incidents = opened_before ∷ [];
  results =
      record {
        invocation_id = "inv-2";
        run_id = "run-2";
        unique_id = stg_id;
        resource_type = "model";
        status = "success";
      }
      ∷ [];
}

abbrev untouched : Regrouped
untouched = record { store = fixed_store; opened = []; appended = []; resolved = []; failing = 0 }

abbrev regrouped : Result Regrouped → Regrouped
regrouped (ok done) = done
regrouped (err e) = untouched

abbrev second_run : Result Regrouped
second_run = regroup by_search same_text 3 context "run-2" (calendar 120) fixed_store

abbrev pub failing_event : CheckEvent
failing_event = record {
  run_id = "run-2";
  check_id = stg_id;
  check_type = "model";
  subject = stg_id;
  status = "error";
  message = "failed";
  detected_at = 100;
}

-- The same run, with a failure of the staging model already recorded.
abbrev failing_store : Store
failing_store = record fixed_store {
  check_events = record { invocation_id = "inv-2"; event = failing_event; incident = none } ∷ [];
}

abbrev failing_run : Result Regrouped
failing_run = regroup by_search same_text 3 context "run-2" (calendar 120) failing_store

-- Six hours later the incident is still open: its severity is raised.
abbrev late_pass : Result (Store × List (ℕ × Text))
late_pass = escalate by_search same_text context "run-3" (calendar 21660) fixed_store

abbrev escalated : Result (Store × List (ℕ × Text)) → Store × List (ℕ × Text)
escalated (ok done) = done
escalated (err e) = (fixed_store, [])

second_run-ok :
    (second_run ≡ ok (regrouped second_run))
    × ((regrouped second_run).resolved ≡ 1 ∷ [])
    × (failing_run ≡ ok (regrouped failing_run))
    × ((regrouped failing_run).appended ≡ 1 ∷ [])
    × (late_pass ≡ ok (escalated late_pass))
    × (map (λ i. i.severity) ((escalated late_pass).0).incidents ≡ sev1 ∷ [])
unfolding data_platform_ops.Prelude.startswith data_platform_ops.Metadata.Graph.Search.by_search
    data_platform_ops.Metadata.Lineage.build_graph data_platform_ops.Metadata.Lineage.weight
    data_platform_ops.Metadata.Lineage.resource_type_of data_platform_ops.Metadata.Lineage.upstream
    data_platform_ops.Metadata.Lineage.downstream
    data_platform_ops.Metadata.Lineage.nearest_failed_ancestor
    data_platform_ops.Metadata.Lineage.downstream_consumers
    data_platform_ops.Metadata.Lineage.consumer_weight
    data_platform_ops.Metadata.Registry.specificity data_platform_ops.Metadata.Registry.rank_ltb
    data_platform_ops.Metadata.Registry.rank_eqb data_platform_ops.Metadata.Registry.ambiguous_among
    data_platform_ops.Metadata.Registry.is_some data_platform_ops.Metadata.Registry.ambiguous
    data_platform_ops.Metadata.Registry.owned data_platform_ops.Metadata.Registry.candidates_for
    data_platform_ops.Metadata.Registry.resolve data_platform_ops.Metadata.Registry.team_of_dataset
    data_platform_ops.Metadata.Registry.team_of data_platform_ops.Metadata.Registry.problem_of
    data_platform_ops.Metadata.Registry.problems_among
    data_platform_ops.Metadata.Registry.rule_problems data_platform_ops.Metadata.Registry.duplicated
    data_platform_ops.Incidents.Events.event_leb data_platform_ops.Incidents.Ingest.test_subject
    data_platform_ops.Incidents.Ingest.outcome_of data_platform_ops.Incidents.Ingest.present
    data_platform_ops.Incidents.Ingest.parse_run_results
    data_platform_ops.Incidents.Ingest.parse_freshness data_platform_ops.Incidents.Ingest.parse
    data_platform_ops.Incidents.Ingest.results data_platform_ops.Incidents.Grouping.roots_by_node
    data_platform_ops.Incidents.Grouping.shared_failures
    data_platform_ops.Incidents.Grouping.group_failures
    data_platform_ops.Incidents.Policy.days_in_month data_platform_ops.Incidents.Policy.open_on
    data_platform_ops.Incidents.Policy.thresholds_ordered
    data_platform_ops.Incidents.Policy.dataset_of data_platform_ops.Incidents.Policy.severity_for
    data_platform_ops.Incidents.Policy.score_incident data_platform_ops.Incidents.Policy.raised
    data_platform_ops.Incidents.Policy.overdue data_platform_ops.Incidents.Policy.open_windows
    data_platform_ops.Incidents.Routing.paged
    data_platform_ops.Incidents.Routing.source_of_failing_columns
    data_platform_ops.Incidents.Routing.source_parents data_platform_ops.Incidents.Routing.route_to
    data_platform_ops.Incidents.Routing.naive_route data_platform_ops.Incidents.Routing.route
    data_platform_ops.Incidents.Desk.Tables.same_reason
    data_platform_ops.Incidents.Desk.Tables.is_open
    data_platform_ops.Incidents.Desk.Tables.update_incident
    data_platform_ops.Incidents.Desk.Tables.open_at
    data_platform_ops.Incidents.Desk.Tables.incident_by
    data_platform_ops.Incidents.Desk.Tables.last_seq data_platform_ops.Incidents.Desk.Context.load
    data_platform_ops.Incidents.Desk.Context.tests_pass
    data_platform_ops.Incidents.Desk.Context.status_is
    data_platform_ops.Incidents.Desk.Context.status_in
    data_platform_ops.Incidents.Desk.Context.healthy
    data_platform_ops.Incidents.Desk.Context.covered data_platform_ops.Incidents.Desk.Context.above
    data_platform_ops.Incidents.Desk.Open.new_incident
    data_platform_ops.Incidents.Desk.Open.open_incident
    data_platform_ops.Incidents.Desk.Open.set_resolution
    data_platform_ops.Incidents.Desk.Assign.resolved_by
    data_platform_ops.Incidents.Desk.Assign.was_before
    data_platform_ops.Incidents.Desk.Assign.is_mine
    data_platform_ops.Incidents.Desk.Assign.continued data_platform_ops.Incidents.Desk.Assign.give
    data_platform_ops.Incidents.Desk.Assign.assign_one
    data_platform_ops.Incidents.Desk.Assign.assign
    data_platform_ops.Incidents.Desk.Escalate.done_for
    data_platform_ops.Incidents.Desk.Escalate.last_change
    data_platform_ops.Incidents.Desk.Escalate.has_reason
    data_platform_ops.Incidents.Desk.Escalate.insert_escalation
    data_platform_ops.Incidents.Desk.Escalate.raise_for
    data_platform_ops.Incidents.Desk.Escalate.escalate
    data_platform_ops.Incidents.Desk.Queue.has_notice
    data_platform_ops.Incidents.Desk.Queue.queue_for data_platform_ops.Incidents.Desk.Queue.queue
    data_platform_ops.Incidents.Desk.Queue.deliver_all
    data_platform_ops.Incidents.Desk.Queue.undelivered
    data_platform_ops.Incidents.Desk.Regroup.events_of_run
    data_platform_ops.Incidents.Desk.Regroup.statuses_from
    data_platform_ops.Incidents.Desk.Regroup.results_of_run
    data_platform_ops.Incidents.Desk.Regroup.contains_seq
    data_platform_ops.Incidents.Desk.Regroup.resolve_one
    data_platform_ops.Incidents.Desk.Regroup.regroup_events
    data_platform_ops.Incidents.Desk.Regroup.regroup
    data_platform_ops.Incidents.Desk.Transaction.has_event
    data_platform_ops.Incidents.Desk.Transaction.insert_events
    data_platform_ops.Incidents.Desk.Transaction.invocation_ids
    data_platform_ops.Incidents.Desk.Transaction.record_artifact
    data_platform_ops.Incidents.Desk.Transaction.fresh_of
    data_platform_ops.Incidents.Desk.Transaction.ingest_target data_platform_ops.Prelude.get
    data_platform_ops.Prelude.put data_platform_ops.Prelude.append_at
    data_platform_ops.Prelude.least
second_run-ok = (refl, refl, refl, refl, refl, refl)

regroup-IsFiledIn_example :
    IsFiledIn by_search context.graph "run-2"
      (map (λ e. e.subject) (events_of_run "run-2" failing_store.check_events))
      (regrouped failing_run).store
regroup-IsFiledIn_example =
    regroup-IsFiledIn by_search same_text 3 context "run-2" (calendar 120) failing_store
      (regrouped failing_run) (tt, tt) second_run-ok.2

escalate-AllRaised_example : AllRaised (opened_before ∷ []) ((escalated late_pass).0).incidents
escalate-AllRaised_example =
    escalate-AllRaised by_search same_text context "run-3" (calendar 21660) fixed_store
      (escalated late_pass) (then_next (omega arith) end) second_run-ok.4
