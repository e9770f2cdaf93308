-- ===== src/Incidents/Desk/Transaction.antt =====
-- `ingest_target` and `_record` of src/platform_ops/incidents/desk.py. The artifacts are already read; a transaction
-- that fails leaves the store as it was, which the caller of `ingest_target` sees as `err`.
pub mod Again
use data_platform_ops.Prelude.{
  ℕ, zero, String, Bool, true, false, not, ◌&&◌, Option, none, some, List, [], ◌∷◌, ◌++◌, contains,
  keep, map, length, if◌then◌else◌, max, ◌==◌,
}
use data_platform_ops.Metadata.Graph.{Networkx}
use data_platform_ops.Incidents.Events.{CheckEvent}
use data_platform_ops.Incidents.Ingest.{Artifact, parse, results}
use data_platform_ops.Incidents.Policy.{Moment}
use data_platform_ops.Incidents.Desk.Tables.{
  Invocation, EventRow, ResultRow, Notice, Store, Result, ok, err, ◌>>=◌, duplicate_key,
}
use data_platform_ops.Incidents.Desk.Context.{Context}
use data_platform_ops.Incidents.Desk.Queue.{deliver_all, undelivered}
use data_platform_ops.Incidents.Desk.Regroup.{Regrouped, regroup}

pub record IngestResult : Type 0 where
  pub run_id : String
  pub new_invocations : ℕ
  pub failing_checks : ℕ
  pub opened : List ℕ
  pub appended : List ℕ
  pub resolved : List ℕ
  pub delivered : ℕ

-- PRIMARY KEY (run_id, check_id)
unfoldable pub has_event : CheckEvent → List EventRow → Bool
has_event event [] = false
has_event event (row ∷ rows) =
    let rest = has_event event rows in
    if (row.event.run_id == event.run_id) && (row.event.check_id == event.check_id)
    then true
    else rest

-- INSERT ... ON CONFLICT (run_id, check_id) DO NOTHING
unfoldable pub insert_events : String → List CheckEvent → List EventRow → List EventRow
insert_events invocation_id [] rows = rows
insert_events invocation_id (event ∷ events) rows = insert_events invocation_id events (
    if has_event event rows
    then rows
    else rows ++ (record { invocation_id = invocation_id; event = event; incident = none } ∷ []))

unfoldable pub invocation_ids : Store → List String
invocation_ids store = map (λ i. i.invocation_id) store.invocations

-- `_record`: the invocation's row, whose key is its id, its results and its events.
unfoldable pub record_artifact : Context → Artifact → String → ℕ → Store → Result Store
record_artifact context artifact run_id at store =
    let outcome = parse artifact context.nodes run_id at in
    if contains artifact.invocation_id (invocation_ids store)
    then err duplicate_key
    else ok (record store {
      invocations =
          store.invocations
          ++ (record {
            invocation_id = artifact.invocation_id;
            run_id = run_id;
            kind = artifact.kind;
            detected_at = at;
            checks_run = outcome.checks_run;
          }
              ∷ []);
      results =
          store.results
          ++ map
              (λ r. record {
                invocation_id = artifact.invocation_id;
                run_id = run_id;
                unique_id = r.0;
                resource_type = r.1;
                status = r.2;
              })
              (results artifact context.nodes);
      check_events = insert_events artifact.invocation_id outcome.events store.check_events;
    })

-- at or artifact.generated_at
when_detected : Option Moment → Artifact → ℕ
when_detected none artifact = artifact.generated_at
when_detected (some at) artifact = at.instant

record_all : Context → String → Option Moment → List Artifact → Store → Result Store
unfolding when_detected record_artifact
record_all context run_id at [] store = ok store
record_all context run_id at (a ∷ artifacts) store = do
  recorded ← record_artifact context a run_id (when_detected at a) store
  record_all context run_id at artifacts recorded

latest : List Artifact → ℕ
latest [] = 0
latest (a ∷ artifacts) = max a.generated_at (latest artifacts)

unfoldable pub fresh_of : Store → List Artifact → List Artifact
fresh_of store artifacts =
    keep (λ a. not (contains a.invocation_id (invocation_ids store))) artifacts

-- The answer when every artifact is known.
abbrev pub nothing_new : String → IngestResult
nothing_new run_id = record {
  run_id = run_id;
  new_invocations = 0;
  failing_checks = 0;
  opened = [];
  appended = [];
  resolved = [];
  delivered = 0;
}

pub record Ingested : Type 0 where
  pub store : Store
  pub result : IngestResult

-- `calendar` gives the moment of an instant, which Python's datetime holds.
module _ (nx : Networkx) (fnmatchcase : String → String → Bool) (max_open_per_person : ℕ)
    (calendar : ℕ → Moment) (deliver : Notice → String) where
  detected_at : Option Moment → List Artifact → Moment
  detected_at none fresh = calendar (latest fresh)
  detected_at (some at) fresh = at

  -- What a transaction does with the artifacts that no earlier one recorded.
  ingest_fresh : Context → String → Option Moment → List Artifact → Store → Result Ingested
  unfolding record_all
  ingest_fresh context run_id at fresh store = do
    recorded ← record_all context run_id at fresh store
    done ← regroup nx fnmatchcase max_open_per_person context run_id (detected_at at fresh) recorded
    ok (record {
      store = record (done.store) { notices = deliver_all deliver (done.store).notices };
      result = record {
        run_id = run_id;
        new_invocations = length fresh;
        failing_checks = done.failing;
        opened = done.opened;
        appended = done.appended;
        resolved = done.resolved;
        delivered = undelivered (done.store).notices;
      };
    })

  ingest_some : Context → String → Option Moment → List Artifact → Store → Result Ingested
  unfolding ingest_fresh
  ingest_some context run_id at [] store =
      ok (record { store = store; result = nothing_new run_id })
  ingest_some context run_id at (a ∷ fresh) store = ingest_fresh context run_id at (a ∷ fresh) store

  unfoldable pub ingest_target :
      Context → List Artifact → String → Option Moment → Store → Result Ingested
  unfolding ingest_some detected_at latest fresh_of invocation_ids
  ingest_target context artifacts run_id at store =
      ingest_some context run_id at (fresh_of store artifacts) store
