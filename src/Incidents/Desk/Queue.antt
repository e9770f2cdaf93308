-- ===== src/Incidents/Desk/Queue.antt =====
-- `_queue` and `_deliver` of src/platform_ops/incidents/desk.py: the messages that a transaction leaves, and their
-- sending. The channels are a parameter: what `deliver` answers for a message.
use data_platform_ops.Prelude.{
  ℕ, String, Bool, false, ◌&&◌, ◌||◌, Option, none, some, List, [], ◌∷◌, ◌++◌, if◌then◌else◌, ◌==◌,
  eqb, suc,
}
use data_platform_ops.Incidents.Desk.Tables.{
  Incident, Notice, NoticeKind, Text, Store, same_kind, is_none, incident_by,
}

-- PRIMARY KEY (incident_id, kind, run_id)
unfoldable pub has_notice : ℕ → NoticeKind → String → List Notice → Bool
has_notice seq kind run_id [] = false
has_notice seq kind run_id (n ∷ ns) =
    (eqb n.incident seq && (same_kind n.kind kind && (n.run_id == run_id)))
    || has_notice seq kind run_id ns

-- The message for the incident that the SELECT finds.
unfoldable pub queue_for : Option Incident → ℕ → NoticeKind → String → ℕ → Text → Store → Store
queue_for none seq kind run_id at text store = store
queue_for (some i) seq kind run_id at text store =
    if has_notice seq kind run_id store.notices then store else record store {
      notices =
          store.notices
          ++ (record {
            incident = seq;
            kind = kind;
            run_id = run_id;
            recipient = i.paged;
            team = i.team;
            severity = i.severity;
            text = text;
            sent_at = at;
            delivered = none;
          }
              ∷ []);
    }

-- INSERT ... SELECT ... ON CONFLICT DO NOTHING
unfoldable pub queue : ℕ → NoticeKind → String → ℕ → Text → Store → Store
queue seq kind run_id at text store =
    queue_for (incident_by seq store.incidents) seq kind run_id at text store

unfoldable pub deliver_all : (Notice → String) → List Notice → List Notice
deliver_all deliver [] = []
deliver_all deliver (n ∷ ns) =
    (if is_none n.delivered then record n { delivered = some (deliver n) } else n)
    ∷ deliver_all deliver ns

unfoldable pub undelivered : List Notice → ℕ
undelivered [] = 0
undelivered (n ∷ ns) = let rest = undelivered ns in if is_none n.delivered then suc rest else rest
