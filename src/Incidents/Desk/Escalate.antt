-- ===== src/Incidents/Desk/Escalate.antt =====
-- `_escalate` of src/platform_ops/incidents/desk.py: every open incident that stayed too long, or that a calendar
-- window covers, is raised.
pub mod Kept
pub mod Raised
use data_platform_ops.Prelude.{
  ℕ, zero, suc, ◌+◌, ◌-◌, ◌/◌, String, Bool, true, false, not, ◌&&◌, ◌||◌, Option, none, some, List,
  [], ◌∷◌, ◌++◌, keep, if◌then◌else◌, leb, eqb, max, map, any_of,
}
use data_platform_ops.Metadata.Graph.{Networkx}
use data_platform_ops.Metadata.Registry.{team_of_dataset}
use data_platform_ops.Incidents.Policy.{
  Severity, Moment, Window, Scored, IncidentPolicy, score_incident, raised, overdue, open_windows,
}
use data_platform_ops.Incidents.Desk.Tables.{
  Incident, Escalation, Reason, open_hours, window_in, Text, raised_to, Store, Result, ok, err,
  ◌>>=◌, duplicate_key, same_reason, same_severity, is_open, update_incident,
}
use data_platform_ops.Incidents.Desk.Context.{Context}

-- The incident's escalations so far.
unfoldable pub done_for : ℕ → List Escalation → List Escalation
done_for seq escalations = keep (λ e. eqb e.incident seq) escalations

-- max([opened_at, *done.values()])
unfoldable pub last_change : ℕ → List Escalation → ℕ
last_change t [] = t
last_change t (e ∷ es) = last_change (max t e.at) es

unfoldable pub has_reason : Reason → List Escalation → Bool
has_reason reason [] = false
has_reason reason (e ∷ es) = same_reason e.reason reason || has_reason reason es

window_reasons : Moment → List Escalation → List Window → List Reason
window_reasons at done [] = []
window_reasons at done (w ∷ ws) =
    let rest = window_reasons at done ws in
    let reason = window_in w.name at.date.year at.date.month in
    if has_reason reason done then rest else reason ∷ rest

-- INSERT INTO incident_escalations, whose key is the incident and the reason.
unfoldable pub insert_escalation : Escalation → List Escalation → Result (List Escalation)
insert_escalation e escalations =
    if has_reason e.reason (done_for e.incident escalations)
    then err duplicate_key
    else ok (escalations ++ (e ∷ []))

pub record Raises : Type 0 where
  pub escalations : List Escalation
  pub current : Severity
  pub texts : List (ℕ × Text)

-- The loop over the reasons, which stops at the top severity.
unfoldable pub raise_for : ℕ → String → ℕ → List Reason → List Escalation → Severity → Result Raises
raise_for seq run_id at [] escalations current =
    ok (record { escalations = escalations; current = current; texts = [] })
raise_for seq run_id at (reason ∷ reasons) escalations current =
    let to = raised current in
    let e : Escalation = record {
      incident = seq;
      run_id = run_id;
      at = at;
      from_severity = current;
      to_severity = to;
      reason = reason;
    } in
    let more = (do
      inserted ← insert_escalation e escalations
      rest ← raise_for seq run_id at reasons inserted to
      ok (record rest { texts = (seq, raised_to to reason) ∷ rest.texts })) in
    if same_severity to current
    then ok (record { escalations = escalations; current = current; texts = [] })
    else more

module _ (nx : Networkx) (fnmatchcase : String → String → Bool) (context : Context)
    (run_id : String) (at : Moment) where
  reasons_for : Incident → List Escalation → List Reason
  unfolding window_reasons
  reasons_for incident done =
      let since = last_change incident.opened_at done in
      let late =
        if overdue incident.severity since at.instant context.policy
        then open_hours ((at.instant - since) / 3600) incident.severity ∷ []
        else [] in
      let consumers =
        (score_incident nx context.graph incident.root context.nodes context.tier_of
          context.policy).consumers in
      late
      ++ window_reasons at done
          (open_windows consumers at context.policy (team_of_dataset fnmatchcase context.registry))

  -- One incident's turn.
  escalate_one : Incident → Store → Result (Store × List (ℕ × Text))
  unfolding reasons_for raise_for
  escalate_one incident store = do
    raises ←
        raise_for incident.seq run_id at.instant
          (reasons_for incident (done_for incident.seq store.escalations)) store.escalations
          incident.severity
    ok (
      record store {
        escalations = raises.escalations;
        incidents =
            update_incident (λ i. record i { severity = raises.current }) incident.seq
              store.incidents;
      },
      raises.texts,
    )

  escalate_all : List Incident → Store → Result (Store × List (ℕ × Text))
  escalate_all [] store = ok (store, [])
  escalate_all (incident ∷ incidents) store = do
    first ← escalate_one incident store
    rest ← escalate_all incidents first.0
    ok (rest.0, first.1 ++ rest.1)

  unfoldable pub escalate : Store → Result (Store × List (ℕ × Text))
  unfolding escalate_all escalate_one
  escalate store =
      escalate_all (keep (λ i. is_open i && leb i.opened_at at.instant) store.incidents) store
