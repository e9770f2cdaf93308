-- ===== src/Incidents/Desk/Assign.antt =====
-- The loop of `_regroup` in src/platform_ops/incidents/desk.py that gives every group of failures its incident.
pub mod Kept
pub mod Choice
pub mod Known
pub mod Accepted
use data_platform_ops.Prelude.{
  ℕ, String, Bool, true, false, not, ◌&&◌, Option, none, some, List, [], ◌∷◌, ◌++◌, contains, keep,
  find_first, if◌then◌else◌, Dict, get, put, leb, eqb, ◌==◌, str_leb, sort_by,
}
use data_platform_ops.Metadata.Graph.{Networkx}
use data_platform_ops.Incidents.Grouping.{Group}
use data_platform_ops.Incidents.Policy.{Moment}
use data_platform_ops.Incidents.Desk.Tables.{Incident, Store, Result, ok, err, ◌>>=◌, is_none}
use data_platform_ops.Incidents.Desk.Context.{Context, covered, above}
use data_platform_ops.Incidents.Desk.Open.{open_incident, set_resolution}

resolved_in : String → Option String → Bool
resolved_in run_id none = false
resolved_in run_id (some r) = r == run_id

-- i.resolved_by_run == run_id
unfoldable pub resolved_by : String → Incident → Bool
unfolding resolved_in
resolved_by run_id i = resolved_in run_id i.resolved_by_run

-- The incidents of other runs that were open when this one started, or that this run resolved.
unfoldable pub was_before : String → ℕ → Incident → Bool
unfolding resolved_by
was_before run_id at i =
    is_none i.merged_into
    && (not (i.opened_by_run == run_id)
        && (leb i.opened_at at && (if is_none i.resolved_at then true else resolved_by run_id i)))

-- The incidents that this run opened.
unfoldable pub is_mine : String → Incident → Bool
is_mine run_id i = is_none i.merged_into && (i.opened_by_run == run_id)

or_else {ℓ} : {A : Type ℓ} → Option A → Option A → Option A
or_else none other = other
or_else (some a) other = some a

pub record Assigned : Type 0 where
  pub store : Store
  -- the incidents that this run opened, before this transaction or in it
  pub mine : List Incident
  -- the number of each incident that the loop opened, appended to
  pub opened : List ℕ
  pub appended : List ℕ
  -- group root ↦ incident
  pub assignment : Dict ℕ

module _ (nx : Networkx) (fnmatchcase : String → String → Bool) (max_open_per_person : ℕ)
    (context : Context) (run_id : String) (at : Moment) (statuses : Dict String)
    (before : List Incident) where
  -- The incident open before this run that the group continues: the first that is at its root, at one of its failed
  -- nodes, below its root, or above its root and not checked by this run.
  unfoldable pub continued : Group → Option Incident
  unfolding or_else
  continued group = or_else (find_first (λ i. i.root == group.root) before) (
      or_else (find_first (λ i. contains i.root group.failed_nodes) before) (
        or_else (find_first (λ i. contains group.root (above nx context.graph i.root)) before) (
          find_first
            (λ i.
              contains i.root (above nx context.graph group.root)
              && not (covered i.root context statuses))
            before)))

  unfoldable pub give : Group → Incident → Assigned → Assigned
  give group i state = record state { assignment = put group.root i.seq state.assignment }

  -- An incident that this run resolved before is open again.
  append_to : Incident → Assigned → Result Assigned
  append_to i state = do
    store ←
        (if resolved_by run_id i then set_resolution i none none state.store else ok state.store)
    ok (record state { store = store; appended = state.appended ++ (i.seq ∷ []) })

  open_for : Group → Assigned → Result Assigned
  open_for group state = do
    made ← open_incident nx fnmatchcase max_open_per_person context group run_id at state.store
    ok (record state {
      store = made.0;
      mine = state.mine ++ (made.1 ∷ []);
      opened = state.opened ++ (made.1.seq ∷ []);
      assignment = put group.root made.1.seq state.assignment;
    })

  -- By the incident that the group continues, or else the one of this run at its root.
  place : Option Incident → Option Incident → Group → Assigned → Result Assigned
  place (some i) own group state = append_to i (give group i state)
  place none (some i) group state = ok (give group i state)
  place none none group state = open_for group state

  -- One turn of the loop.
  unfoldable pub assign_one : Group → Assigned → Result Assigned
  unfolding place append_to open_for
  assign_one group state =
      place (continued group) (find_first (λ i. i.root == group.root) state.mine) group state

  assign_all : List Group → Assigned → Result Assigned
  assign_all [] state = ok state
  assign_all (group ∷ groups) state = do next ← assign_one group state; assign_all groups next

  -- sorted(groups, key=lambda g: g.root)
  unfoldable pub assign : List Group → Store → Result Assigned
  unfolding assign_all
  assign groups store = assign_all (sort_by (λ a b. str_leb a.root b.root) groups) (record {
    store = store;
    mine = keep (is_mine run_id) store.incidents;
    opened = [];
    appended = [];
    assignment = [];
  })
