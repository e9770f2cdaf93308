-- ===== src/Examples/Desk.antt =====
-- Instances of what is proved of src/platform_ops/incidents: a run in which the staging model fails.
use data_platform_ops.Prelude.{
  ℕ, ◌≤◌, String, Bool, true, false, Option, none, some, List, [], All, ◌∷◌, Dict, ◌≡◌, ◌⊎◌, refl,
  arith, get, or_default, map,
}
use data_platform_ops.Metadata.Graph.Search.{by_search}
use data_platform_ops.Metadata.Lineage.{Tier}
use data_platform_ops.Incidents.Ingest.{Artifact, Kind}
use data_platform_ops.Incidents.Policy.{
  Severity, sev1, sev2, sev3, Moment, IncidentPolicy, severity_for, raised,
}
use data_platform_ops.Incidents.Desk.Tables.{
  Incident, Notice, Store, Result, ok, err, open_hours, raised_to, same_reason,
}
use data_platform_ops.Incidents.Desk.Context.{Context, load}
use data_platform_ops.Incidents.Desk.Escalate.{
  Raises, raise_for, insert_escalation, has_reason, done_for,
}
use data_platform_ops.Incidents.Desk.Writes.Numbers.{IsNumbered, end}
use data_platform_ops.Incidents.Desk.Transaction.{
  Ingested, IngestResult, ingest_target, nothing_new,
}
use data_platform_ops.Incidents.Desk.Regroup.{
  Regrouped, regroup, results_of_run, statuses_from, events_of_run,
}
use data_platform_ops.Incidents.Desk.Transaction.Again.{
  ingest_target-again, ingest_target-IsNumbered,
}
use data_platform_ops.Examples.Samples.{stg_id, nodes, registry, same_text}

abbrev pub policy : IncidentPolicy
policy = record {
  severity = record { root_tier_multiplier = 2; sev1_min_score = 20; sev2_min_score = 10 };
  tier_weights = record { critical = 5; important = 3; best_effort = 1 };
  after_hours = λ s. some 4;
  windows = [];
}

abbrev pub context : Context
context = load same_text nodes registry policy none

abbrev pub calendar : ℕ → Moment
calendar t = record { instant = t; date = record { year = 2026; month = 3; day = 2 } }

abbrev pub sent : Notice → String
sent n = "sent"

abbrev artifact : Artifact
artifact = record {
  invocation_id = "inv-1";
  kind = Kind.run_results;
  generated_at = 60;
  results = record { unique_id = stg_id; status = "error"; message = "failed" } ∷ [];
}

abbrev pub empty_store : Store
empty_store = record {
  invocations = [];
  results = [];
  check_events = [];
  incidents = [];
  run_links = [];
  shared_nodes = [];
  escalations = [];
  notices = [];
}

abbrev unchanged : Ingested
unchanged = record { store = empty_store; result = nothing_new "run-1" }

abbrev value : Result Ingested → Ingested
value (ok done) = done
value (err e) = unchanged

abbrev first_ingest : Result Ingested
first_ingest =
    ingest_target by_search same_text 3 calendar sent context (artifact ∷ []) "run-1" none
      empty_store

first_ingest-ok : first_ingest ≡ ok (value first_ingest)
unfolding data_platform_ops.Metadata.Graph.Search.by_search
    data_platform_ops.Metadata.Lineage.build_graph
    data_platform_ops.Metadata.Lineage.nearest_failed_ancestor
    data_platform_ops.Metadata.Lineage.downstream_consumers
    data_platform_ops.Incidents.Ingest.outcome_of data_platform_ops.Incidents.Ingest.present
    data_platform_ops.Incidents.Ingest.parse_run_results
    data_platform_ops.Incidents.Ingest.parse_freshness data_platform_ops.Incidents.Ingest.parse
    data_platform_ops.Incidents.Ingest.results data_platform_ops.Incidents.Grouping.group_failures
    data_platform_ops.Incidents.Policy.days_in_month data_platform_ops.Incidents.Policy.overdue
    data_platform_ops.Incidents.Policy.open_windows
    data_platform_ops.Incidents.Desk.Tables.update_incident
    data_platform_ops.Incidents.Desk.Tables.open_at
    data_platform_ops.Incidents.Desk.Tables.incident_by
    data_platform_ops.Incidents.Desk.Tables.last_seq data_platform_ops.Incidents.Desk.Context.load
    data_platform_ops.Incidents.Desk.Context.tests_pass
    data_platform_ops.Incidents.Desk.Context.above
    data_platform_ops.Incidents.Desk.Open.new_incident
    data_platform_ops.Incidents.Desk.Open.open_incident
    data_platform_ops.Incidents.Desk.Open.set_resolution
    data_platform_ops.Incidents.Desk.Assign.is_mine
    data_platform_ops.Incidents.Desk.Assign.continued data_platform_ops.Incidents.Desk.Assign.give
    data_platform_ops.Incidents.Desk.Assign.assign_one
    data_platform_ops.Incidents.Desk.Assign.assign
    data_platform_ops.Incidents.Desk.Escalate.done_for
    data_platform_ops.Incidents.Desk.Escalate.last_change
    data_platform_ops.Incidents.Desk.Escalate.has_reason
    data_platform_ops.Incidents.Desk.Escalate.escalate
    data_platform_ops.Incidents.Desk.Queue.has_notice
    data_platform_ops.Incidents.Desk.Regroup.events_of_run
    data_platform_ops.Incidents.Desk.Regroup.statuses_from
    data_platform_ops.Incidents.Desk.Regroup.resolve_one
    data_platform_ops.Incidents.Desk.Regroup.regroup_events
    data_platform_ops.Incidents.Desk.Regroup.regroup
    data_platform_ops.Incidents.Desk.Transaction.has_event
    data_platform_ops.Incidents.Desk.Transaction.insert_events
    data_platform_ops.Incidents.Desk.Transaction.invocation_ids
    data_platform_ops.Incidents.Desk.Transaction.ingest_target data_platform_ops.Prelude.get
    data_platform_ops.Prelude.put data_platform_ops.Prelude.append_at
first_ingest-ok = refl

ingest_target-again_example :
    ingest_target by_search same_text 3 calendar sent context
      (artifact ∷ [])
      "run-2"
      none
      (value first_ingest).store
    ≡ ok (record { store = (value first_ingest).store; result = nothing_new "run-2" })
ingest_target-again_example =
    ingest_target-again by_search same_text 3 calendar sent context "run-1" none (artifact ∷ [])
      empty_store (value first_ingest) "run-2" none first_ingest-ok

ingest_target-IsNumbered_example : IsNumbered 0 ((value first_ingest).store).incidents
ingest_target-IsNumbered_example =
    ingest_target-IsNumbered by_search same_text 3 calendar sent context "run-1" none
      (artifact ∷ []) empty_store (value first_ingest) end first_ingest-ok
