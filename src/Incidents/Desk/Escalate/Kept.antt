-- ===== src/Incidents/Desk/Escalate/Kept.antt =====
-- `_escalate` of src/platform_ops/incidents/desk.py keeps what every write keeps.
use data_platform_ops.Prelude.{Option, ℕ, String, Bool, List, [], ◌∷◌, keep, leb, ◌&&◌}
use data_platform_ops.Metadata.Graph.{Networkx}
use data_platform_ops.Incidents.Policy.{Moment}
use data_platform_ops.Incidents.Desk.Tables.{
  Incident, Store, Ensures, ensured, Ensures->>=, Ensures-any, is_open,
}
use data_platform_ops.Incidents.Desk.Context.{Context}
use data_platform_ops.Incidents.Desk.Writes.{IsKept}
use data_platform_ops.Incidents.Desk.Escalate.{
  Raises, raise_for, reasons_for, done_for, escalate_one, escalate_all, escalate,
}

module _ (nx : Networkx) (fnmatchcase : String → String → Bool) (max_open_per_person : ℕ)
    (context : Context) (run_id : String) (at : Moment) (P : Store → Type 0)
    {May : Incident → Option ℕ → Option String → Type 0}
    (kept : IsKept nx fnmatchcase max_open_per_person May P) where
  escalate_one-Kept :
      (i : Incident) (s : Store)
      → P s
      → Ensures (λ r. P (r.0)) (escalate_one nx fnmatchcase context run_id at i s)
  unfolding escalate_one
  escalate_one-Kept i s p =
      Ensures->>=
        {m = raise_for i.seq run_id at.instant
          (reasons_for nx fnmatchcase context run_id at i (done_for i.seq s.escalations))
          s.escalations i.severity}
        (Ensures-any _)
        (λ (raises : Raises) u.
          ensured _ (kept.by_raise (raises.current) (raises.escalations) i.seq s p))

  escalate_all-Kept :
      (is : List Incident) (s : Store)
      → P s
      → Ensures (λ r. P (r.0)) (escalate_all nx fnmatchcase context run_id at is s)
  unfolding escalate_all
  escalate_all-Kept [] s p = ensured _ p
  escalate_all-Kept (i ∷ is) s p =
      Ensures->>= (escalate_one-Kept i s p)
        (λ first q. Ensures->>= (escalate_all-Kept is (first.0) q) (λ rest r. ensured _ r))

  pub escalate-Kept :
      (s : Store) → P s → Ensures (λ r. P (r.0)) (escalate nx fnmatchcase context run_id at s)
  unfolding escalate
  escalate-Kept s p =
      escalate_all-Kept (keep (λ i. is_open i && leb i.opened_at at.instant) s.incidents) s p
