-- ===== src/Incidents/Desk/Regroup.antt =====
-- `_regroup` of src/platform_ops/incidents/desk.py: the failures of a run, so far, become incidents. `none` of
-- `group_failures` (Python's recursion limit) is `err recursion_limit`.
pub mod Kept
pub mod Healthy
pub mod Rows
pub mod Keyed
pub mod Filed
use data_platform_ops.Prelude.{
  ℕ, zero, ◌+◌, String, Bool, true, false, not, ◌&&◌, Option, none, some, List, [], ◌∷◌, ◌++◌,
  contains, keep, map, length, if◌then◌else◌, Dict, get, put, keys, values, or_default, str_leb,
  sort_by, sorted_set, eqb, ◌==◌, insert_by, leb,
}
use data_platform_ops.Metadata.Graph.{Networkx}
use data_platform_ops.Incidents.Events.{CheckEvent}
use data_platform_ops.Incidents.Grouping.{Group, roots_by_node, group_failures, root_in}
use data_platform_ops.Incidents.Policy.{Moment}
use data_platform_ops.Incidents.Desk.Tables.{
  Incident, EventRow, ResultRow, RunLink, SharedNode, Store, Result, ok, err, ◌>>=◌, missing_key,
  recursion_limit, duplicate_key, NoticeKind, Text, still_failing, failing_at, healthy_in,
  update_incident, incident_by, is_none,
}
use data_platform_ops.Incidents.Desk.Context.{Context, healthy, status_in}
use data_platform_ops.Incidents.Desk.Open.{set_resolution}
use data_platform_ops.Incidents.Desk.Escalate.{escalate}
use data_platform_ops.Incidents.Desk.Queue.{queue}
use data_platform_ops.Incidents.Desk.Assign.{Assigned, assign, resolved_by, was_before}

abbrev pub worst_statuses : List String
worst_statuses = "error" ∷ "fail" ∷ "runtime error" ∷ []

found {ℓ} : {A : Type ℓ} → Option A → Result A
found none = err missing_key
found (some a) = ok a

pub limited {ℓ} : {A : Type ℓ} → Option A → Result A
limited none = err recursion_limit
limited (some a) = ok a

-- SELECT ... WHERE run_id = ... ORDER BY check_id
unfoldable pub events_of_run : String → List EventRow → List CheckEvent
events_of_run run_id rows =
    sort_by (λ a b. str_leb a.check_id b.check_id)
      (map (λ row. row.event) (keep (λ row. row.event.run_id == run_id) rows))

result_leb : ResultRow → ResultRow → Bool
result_leb a b =
    if not (a.unique_id == b.unique_id)
    then str_leb a.unique_id b.unique_id
    else str_leb a.status b.status

-- A node reported twice counts by its worst status.
unfoldable pub statuses_from : List ResultRow → Dict String → Dict String
unfolding status_in
statuses_from [] statuses = statuses
statuses_from (r ∷ rs) statuses = statuses_from rs (
    if r.status == "skipped"
    then statuses
    else if status_in worst_statuses (get r.unique_id statuses)
    then statuses
    else put r.unique_id r.status statuses)

skipped_from : List ResultRow → List String
skipped_from [] = []
skipped_from (r ∷ rs) =
    let rest = skipped_from rs in if r.status == "skipped" then r.unique_id ∷ rest else rest

unfoldable pub results_of_run : String → List ResultRow → List ResultRow
unfolding result_leb
results_of_run run_id rows = sort_by result_leb (keep (λ row. row.run_id == run_id) rows)

unfoldable pub contains_seq : ℕ → List ℕ → Bool
contains_seq seq [] = false
contains_seq seq (n ∷ ns) = let rest = contains_seq seq ns in if eqb n seq then true else rest

-- A later invocation of the run found a failure above the root: one problem, not two.
pub merge_untaken : List ℕ → Dict ℕ → Dict String → List Incident → Store → Result Store
unfolding found contains_seq
merge_untaken taken assignment root_of [] store = ok store
merge_untaken taken assignment root_of (i ∷ mine) store =
    let merged = (do
      into ← found (get (root_in root_of i.root) assignment)
      ok (record store {
        incidents =
            update_incident (λ j. record j { merged_into = some into }) i.seq store.incidents;
      })) in
    (if contains_seq i.seq taken then ok store else merged)
    >>= merge_untaken taken assignment root_of mine

unfoldable pub incident_of : Dict String → Dict ℕ → CheckEvent → Result ℕ
unfolding found
incident_of root_of assignment event = do
  root ← found (get event.subject root_of)
  found (get root assignment)

-- UPDATE incident_check_events ... WHERE run_id = ... AND check_id = ...
file_event : CheckEvent → ℕ → List EventRow → List EventRow
file_event event seq [] = []
file_event event seq (row ∷ rows) =
    (if (row.event.run_id == event.run_id) && (row.event.check_id == event.check_id)
      then record row { incident = some seq }
      else row)
    ∷ file_event event seq rows

pub file_events : Dict String → Dict ℕ → List CheckEvent → Store → Result Store
unfolding incident_of file_event
file_events root_of assignment [] store = ok store
file_events root_of assignment (event ∷ events) store = do
  seq ← incident_of root_of assignment event
  file_events root_of assignment events
      (record store { check_events = file_event event seq store.check_events })

-- The checks of each incident, by its number.
count_check : ℕ → List (ℕ × ℕ) → List (ℕ × ℕ)
count_check seq [] = (seq, 1) ∷ []
count_check seq ((other, n) ∷ checks) =
    let rest = count_check seq checks in
    if eqb other seq then (other, n + 1) ∷ checks else (other, n) ∷ rest

count_checks : Dict String → Dict ℕ → List CheckEvent → List (ℕ × ℕ) → Result (List (ℕ × ℕ))
unfolding incident_of count_check
count_checks root_of assignment [] checks = ok checks
count_checks root_of assignment (event ∷ events) checks = do
  seq ← incident_of root_of assignment event
  count_checks root_of assignment events (count_check seq checks)

checks_of : ℕ → List (ℕ × ℕ) → ℕ
checks_of seq [] = 0
checks_of seq ((other, n) ∷ checks) =
    let rest = checks_of seq checks in if eqb other seq then n else rest

link_rows : String → ℕ → List (ℕ × ℕ) → List RunLink
link_rows run_id at checks =
    map (λ c. record { incident = c.0; run_id = run_id; at = at; checks = c.1 }) checks

has_shared : SharedNode → List SharedNode → Bool
has_shared row [] = false
has_shared row (r ∷ rs) =
    let rest = has_shared row rs in
    if eqb r.incident row.incident && ((r.run_id == row.run_id) && (r.node == row.node))
    then true
    else rest

-- INSERT ... ON CONFLICT DO NOTHING
insert_shared : String → ℕ → List String → List SharedNode → List SharedNode
unfolding has_shared
insert_shared run_id seq [] rows = rows
insert_shared run_id seq (node ∷ nodes) rows =
    let row : SharedNode = record { incident = seq; run_id = run_id; node = node } in
    insert_shared run_id seq nodes (if has_shared row rows then rows else rows ++ (row ∷ []))

shared_under : String → Dict ℕ → String → List String → List SharedNode → Result (List SharedNode)
unfolding found insert_shared
shared_under run_id assignment root [] rows = ok rows
shared_under run_id assignment root (node ∷ nodes) rows = do
  seq ← found (get root assignment)
  ok (insert_shared run_id seq (node ∷ nodes) rows)

shared_rows : String → Dict ℕ → List Group → List SharedNode → Result (List SharedNode)
unfolding shared_under
shared_rows run_id assignment [] rows = ok rows
shared_rows run_id assignment (group ∷ groups) rows =
    shared_under run_id assignment group.root group.shared rows
    >>= shared_rows run_id assignment groups

pub record Resolved : Type 0 where
  pub store : Store
  pub seqs : List ℕ

-- What a run says of one incident that no group continued: it is resolved when it is found healthy, and open again
-- when this run resolved it and now finds it failing.
unfoldable pub resolve_one :
    Context → String → ℕ → Dict String → Incident → Resolved → Result Resolved
unfolding resolved_by
resolve_one context run_id at statuses i state =
    let well = healthy i.root context statuses in
    if well && not (resolved_by run_id i)
    then (do
      store ← set_resolution i (some at) (some run_id) state.store
      ok (record { store = store; seqs = state.seqs ++ (i.seq ∷ []) }))
    else if not well && resolved_by run_id i
    then (do store ← set_resolution i none none state.store; ok (record state { store = store }))
    else ok state

resolve_all :
    Context → String → ℕ → Dict String → List ℕ → List Incident → Resolved → Result Resolved
unfolding resolve_one contains_seq
resolve_all context run_id at statuses taken [] state = ok state
resolve_all context run_id at statuses taken (i ∷ before) state =
    (if contains_seq i.seq taken then ok state else resolve_one context run_id at statuses i state)
    >>= resolve_all context run_id at statuses taken before

root_of_incident : ℕ → List Incident → String
root_of_incident seq incidents = elim (incident_by seq incidents) [ none ↦ "" | some i ↦ i.root ]

queue_all : NoticeKind → String → ℕ → (ℕ → Text) → List ℕ → Store → Store
queue_all kind run_id at text [] store = store
queue_all kind run_id at text (seq ∷ seqs) store =
    queue_all kind run_id at text seqs (queue seq kind run_id at (text seq) store)

queue_raises : String → ℕ → List (ℕ × Text) → Store → Store
queue_raises run_id at [] store = store
queue_raises run_id at ((seq, text) ∷ raises) store =
    queue_raises run_id at raises (queue seq NoticeKind.escalation run_id at text store)

pub record Regrouped : Type 0 where
  pub store : Store
  pub opened : List ℕ
  pub appended : List ℕ
  pub resolved : List ℕ
  pub failing : ℕ

-- DELETE and INSERT of the run's links, with the rows of its shared nodes.
relink : String → ℕ → List (ℕ × ℕ) → List SharedNode → Store → Store
relink run_id at checks shared store = record store {
  run_links =
      keep (λ l. not (l.run_id == run_id)) store.run_links
      ++ link_rows run_id at (sort_by (λ a b. leb a.0 b.0) checks);
  shared_nodes = shared;
}

-- What the persons paged are told, and what the ingest reports.
tell : String → ℕ → ℕ → Assigned → List (ℕ × ℕ) → Resolved → Store × List (ℕ × Text) → Regrouped
tell run_id at failing assigned checks resolved escalated =
    let incidents = assigned.store.incidents in
    let page_text =
      λ (seq : ℕ). failing_at (checks_of seq checks) (root_of_incident seq incidents) in
    let update_text = λ (seq : ℕ). still_failing (checks_of seq checks) run_id in
    let resolved_text = λ (seq : ℕ). healthy_in (root_of_incident seq incidents) run_id in
    record {
      store = queue_raises run_id at escalated.1 (
          queue_all NoticeKind.resolved run_id at resolved_text resolved.seqs (
            queue_all NoticeKind.update run_id at update_text assigned.appended
              (queue_all NoticeKind.page run_id at page_text assigned.opened escalated.0)));
      opened = assigned.opened;
      appended = assigned.appended;
      resolved = resolved.seqs;
      failing = failing;
    }

module _ (nx : Networkx) (fnmatchcase : String → String → Bool) (max_open_per_person : ℕ)
    (context : Context) (run_id : String) (at : Moment) where
  -- From the run's events, the status of each node, the nodes skipped and the incidents open before.
  unfoldable pub regroup_events :
      List CheckEvent → Dict String → List String → List Incident → Store → Result Regrouped
  unfolding limited merge_untaken file_events count_checks shared_rows resolve_all relink tell found
      contains_seq incident_of link_rows checks_of root_of_incident queue_raises queue_all
      shared_under resolve_one count_check insert_shared has_shared file_event
  regroup_events events statuses skipped before store = do
    groups ← limited (group_failures nx context.graph events skipped)
    root_of ← limited (roots_by_node nx context.graph (map (λ e. e.subject) events))
    assigned ←
        assign nx fnmatchcase max_open_per_person context run_id at statuses before groups store
    merged ←
        merge_untaken (values assigned.assignment) assigned.assignment root_of assigned.mine
          assigned.store
    filed ← file_events root_of assigned.assignment events merged
    checks ← count_checks root_of assigned.assignment events []
    shared ←
        shared_rows run_id assigned.assignment groups
          (keep (λ r. not (r.run_id == run_id)) filed.shared_nodes)
    resolved ←
        resolve_all context run_id at.instant statuses (values assigned.assignment) before
          (record { store = relink run_id at.instant checks shared filed; seqs = [] })
    escalated ← escalate nx fnmatchcase context run_id at resolved.store
    ok (tell run_id at.instant (length events) assigned checks resolved escalated)

  unfoldable pub regroup : Store → Result Regrouped
  unfolding skipped_from results_of_run result_leb
  regroup store =
      regroup_events (events_of_run run_id store.check_events)
        (statuses_from (results_of_run run_id store.results) [])
        (sorted_set (skipped_from (results_of_run run_id store.results)))
        (keep (was_before run_id at.instant) store.incidents) store
