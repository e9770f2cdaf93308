-- ===== src/Incidents/Desk/Open.antt =====
-- `_open` and `_set_resolution` of src/platform_ops/incidents/desk.py: a new incident, and an incident's resolution.
use data_platform_ops.Prelude.{
  ℕ, ◌+◌, String, Bool, true, false, not, ◌&&◌, Option, none, some, List, [], ◌∷◌, ◌++◌, keep,
  if◌then◌else◌, Dict, get, put, or_default, ◌==◌, ltb, eqb,
}
use data_platform_ops.Metadata.Graph.{Networkx}
use data_platform_ops.Incidents.Grouping.{Group}
use data_platform_ops.Incidents.Policy.{Moment, dataset_of, score_incident}
use data_platform_ops.Incidents.Routing.{route, naive_route, paged}
use data_platform_ops.Incidents.Desk.Tables.{
  Incident, Store, Result, ok, err, two_open_per_root, is_none, open_at, last_seq, update_incident,
  incident_by,
}
use data_platform_ops.Incidents.Desk.Context.{Context}

-- The last incident at the root, open or not.
previous_at : String → List Incident → Option ℕ → Option ℕ
previous_at root [] last = last
previous_at root (i ∷ is) last = previous_at root is (if i.root == root then some i.seq else last)

-- other.resolved_at is None or other.resolved_at > at
still_open : ℕ → Option ℕ → Bool
still_open at none = true
still_open at (some t) = ltb at t

-- How many incidents each person is handling.
busy_with : ℕ → List Incident → Dict ℕ → Dict ℕ
unfolding still_open
busy_with at [] busy = busy
busy_with at (i ∷ is) busy = busy_with at is (
    if is_none i.merged_into && still_open at i.resolved_at
    then put i.paged (or_default 0 (get i.paged busy) + 1) busy
    else busy)

module _ (nx : Networkx) (fnmatchcase : String → String → Bool) (max_open_per_person : ℕ) where
  -- The row that `_open` inserts.
  unfoldable pub new_incident : Context → Group → String → Moment → List Incident → Incident
  unfolding previous_at busy_with
  new_incident context group run_id at incidents =
      let scored =
        score_incident nx context.graph group.root context.nodes context.tier_of context.policy in
      let to =
        route fnmatchcase group.root context.nodes context.registry group.events context.lineage in
      let naive = naive_route fnmatchcase group.root context.nodes context.registry in
      record {
        seq = last_seq incidents + 1;
        root = group.root;
        dataset = dataset_of group.root context.nodes;
        severity = scored.severity;
        score = scored.score;
        root_tier = scored.root_tier;
        owner = to.owner;
        team = to.team;
        naive_owner = naive.owner;
        naive_team = naive.team;
        routed_via = to.routed_via;
        opened_at = at.instant;
        opened_by_run = run_id;
        resolved_at = none;
        resolved_by_run = none;
        merged_into = none;
        previous_incident = previous_at group.root incidents none;
        paged = paged to (busy_with at.instant incidents []) max_open_per_person;
      }

  -- The insert is refused when another incident is open at the root.
  unfoldable pub open_incident :
      Context → Group → String → Moment → Store → Result (Store × Incident)
  open_incident context group run_id at store =
      let incident = new_incident context group run_id at store.incidents in
      if open_at group.root store.incidents
      then err two_open_per_root
      else ok (record store { incidents = store.incidents ++ (incident ∷ []) }, incident)

-- Whether the incident would be open if it had no resolution.
unmerged : Option Incident → Bool
unmerged none = false
unmerged (some i) = is_none i.merged_into

-- `_set_resolution`. The index refuses to reopen an incident where another is open at its root.
unfoldable pub set_resolution : Incident → Option ℕ → Option String → Store → Result Store
unfolding unmerged
set_resolution incident at run_id store =
    let others = keep (λ i. not (eqb i.seq incident.seq)) store.incidents in
    if is_none at
      && (unmerged (incident_by incident.seq store.incidents) && open_at incident.root others)
    then err two_open_per_root
    else ok (record store {
      incidents =
          update_incident (λ i. record i { resolved_at = at; resolved_by_run = run_id })
            incident.seq store.incidents;
    })
