-- ===== src/Incidents/Desk/Regroup/Keyed.antt =====
-- The primary key (run_id, check_id) of incident_check_events, in src/platform_ops/incidents/store.py, and what it says of
-- the events that `_regroup` reads.
use data_platform_ops.Prelude.{
  String, true, false, ◌≡◌, refl, arith, List, [], ◌∷◌, All, All-map_of, All-keep, All-sort_by,
  all_of, map, eq_iff, eq_self, ◌==◌,
}
use data_platform_ops.Incidents.Events.{CheckEvent}
use data_platform_ops.Incidents.Desk.Tables.{EventRow}
use data_platform_ops.Incidents.Desk.Regroup.{events_of_run}
use data_platform_ops.Incidents.Desk.Regroup.Rows.{row_of, agrees}

-- No two rows have the same run and check.
abbrev pub IsKeyed : List EventRow → Type 0
IsKeyed [] = Unit
IsKeyed (row ∷ rows) = All (λ other. row_of row other.event ≡ false) rows × IsKeyed rows

agrees_self : (row : EventRow) → agrees row row.event ≡ true
agrees_self row = ground (arith, eq_self row.event.subject)

agrees_apart :
    (row other : EventRow)
    → row_of row other.event ≡ false
    → (agrees row other.event ≡ true) × (agrees other row.event ≡ true)
agrees_apart row other h = (
  ground arith,
  ground (
    arith,
    eq_iff row.event.run_id other.event.run_id,
    eq_iff other.event.run_id row.event.run_id,
    eq_iff row.event.check_id other.event.check_id,
    eq_iff other.event.check_id row.event.check_id,
  ),
)

-- A row's event is about the subject of every row with its key.
rows-agree :
    (rows : List EventRow)
    → IsKeyed rows
    → All (λ row. All (λ other. agrees row other.event ≡ true) rows) rows
rows-agree [] k = tt
rows-agree (row ∷ rows) k = (
  (agrees_self row, All-map_of _ _ rows (λ other h. (agrees_apart row other h).0) k.0),
  All-both rows rows row k.0 (rows-agree rows k.1),
)
  where
    All-both :
        (some_rows rows : List EventRow) (row : EventRow)
        → All (λ other. row_of row other.event ≡ false) some_rows
        → All (λ other. All (λ o. agrees other o.event ≡ true) rows) some_rows
        → All (λ other. All (λ o. agrees other o.event ≡ true) (row ∷ rows)) some_rows
    All-both [] rows row apart all = tt
    All-both (other ∷ others) rows row apart all =
        (((agrees_apart row other apart.0).1, all.0), All-both others rows row apart.1 all.1)

All-all_of :
    (row : EventRow) (events : List CheckEvent)
    → All (λ e. agrees row e ≡ true) events
    → all_of (agrees row) events ≡ true
All-all_of row [] h = refl
All-all_of row (e ∷ events) h = ground (arith, h.0, All-all_of row events h.1)

All-event :
    (row : EventRow) (rows : List EventRow)
    → All (λ other. agrees row other.event ≡ true) rows
    → All (λ e. agrees row e ≡ true) (map (λ r. r.event) rows)
All-event row [] h = tt
All-event row (r ∷ rows) h = (h.0, All-event row rows h.1)

pub events_of_run-agree :
    (run_id : String) (rows : List EventRow)
    → IsKeyed rows
    → All (λ row. all_of (agrees row) (events_of_run run_id rows) ≡ true) rows
unfolding events_of_run
events_of_run-agree run_id rows k =
    All-map_of _ _ rows
      (λ row h. All-all_of row _ (
        All-sort_by (λ e. agrees row e ≡ true) _ _
          (All-event row _ (
            All-keep (λ other. agrees row other.event ≡ true) (λ r. r.event.run_id == run_id) rows
              h))))
      (rows-agree rows k)
