-- ===== src/Examples/Order.antt =====
-- Runs that src/platform_ops/incidents/desk.py meets in order and out of order, for `_regroup`'s loop over the groups.
use data_platform_ops.Prelude.{◌≡◌, refl, some, [], ◌∷◌, keep}
use data_platform_ops.Metadata.Graph.Search.{by_search}
use data_platform_ops.Incidents.Grouping.{Group}
use data_platform_ops.Incidents.Desk.Tables.{
  Incident, Store, ok, err, two_open_per_root, is_open, open_at, incident_by,
}
use data_platform_ops.Incidents.Desk.Open.{open_incident, set_resolution}
use data_platform_ops.Incidents.Desk.Assign.{
  Assigned, assign, was_before, resolved_by, is_mine, continued, give, assign_one,
}
use data_platform_ops.Incidents.Desk.Assign.Accepted.{assign-accepted}
use data_platform_ops.Examples.Samples.{stg_id, same_text}
use data_platform_ops.Examples.Desk.{context, calendar, empty_store}
use data_platform_ops.Examples.Rerun.{opened_before}

abbrev stg_group : Group
stg_group = record {
  root = stg_id;
  events = [];
  failed_nodes = stg_id ∷ [];
  skipped = [];
  shared = [];
}

abbrev open_store : Store
open_store = record empty_store { incidents = opened_before ∷ [] }

assign-accepted_example :
    (a : Assigned) × (assign by_search same_text 3 context "run-2"
        (calendar 120)
        []
        (keep (was_before "run-2" 120) open_store.incidents)
        (stg_group ∷ [])
        open_store
      ≡ ok a)
unfolding was_before resolved_by is_open
assign-accepted_example =
    assign-accepted by_search same_text 3 context "run-2" (calendar 120) [] (stg_group ∷ [])
      open_store (refl, tt) (refl, tt)

-- A run that is ingested late: the incident at its root was opened after it.
late_run-refused :
    assign by_search same_text 3 context "run-0"
      (calendar 50)
      []
      (keep (was_before "run-0" 50) open_store.incidents)
      (stg_group ∷ [])
      open_store
    ≡ err two_open_per_root
unfolding assign assign_one continued was_before resolved_by is_mine open_incident open_at is_open
late_run-refused = refl

abbrev resolved_before : Incident
resolved_before = record opened_before {
  opened_at = 10;
  opened_by_run = "run-0";
  resolved_at = some 60;
  resolved_by_run = some "run-1";
}

abbrev opened_between : Incident
opened_between = record opened_before { seq = 2; opened_at = 70; opened_by_run = "run-2" }

abbrev two_runs_store : Store
two_runs_store = record empty_store { incidents = resolved_before ∷ opened_between ∷ [] }

-- A run that resolved an incident and now finds its root failing again, after another run opened a new one there.
interleaved_run-refused :
    assign by_search same_text 3 context "run-1"
      (calendar 80)
      []
      (keep (was_before "run-1" 80) two_runs_store.incidents)
      (stg_group ∷ [])
      two_runs_store
    ≡ err two_open_per_root
unfolding assign assign_one continued give was_before resolved_by is_mine set_resolution open_at
    is_open incident_by
interleaved_run-refused = refl
