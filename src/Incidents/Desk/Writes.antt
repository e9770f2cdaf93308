-- ===== src/Incidents/Desk/Writes.antt =====
-- What a property of the store needs for every write of src/platform_ops/incidents/desk.py to keep it. Filing the run's
-- events is apart: what it needs is `ByFiling`.
pub mod Numbers
pub mod Known
use data_platform_ops.Prelude.{ℕ, String, Bool, Option, none, some, List}
use data_platform_ops.Metadata.Graph.{Networkx}
use data_platform_ops.Incidents.Grouping.{Group}
use data_platform_ops.Incidents.Policy.{Moment, Severity}
use data_platform_ops.Incidents.Desk.Tables.{
  Incident, EventRow, RunLink, SharedNode, Escalation, Notice, Store, Ensures, update_incident,
}
use data_platform_ops.Incidents.Desk.Context.{Context}
use data_platform_ops.Incidents.Desk.Open.{open_incident, set_resolution}

-- Nothing is known of it.
abbrev pub Anyhow : Incident → Option ℕ → Option String → Type 0
Anyhow i at run_id = Unit

module _ (nx : Networkx) (fnmatchcase : String → String → Bool) (max_open_per_person : ℕ) where
  -- `May` is what is known of an incident whose resolution a run writes.
  pub record IsKept (May : Incident → Option ℕ → Option String → Type 0) (P : Store → Type 0)
      : Type 0 where
    pub by_open :
        (context : Context) (group : Group) (run_id : String) (at : Moment) (s : Store)
        → P s
        → Ensures
            (λ made. P (made.0))
            (open_incident nx fnmatchcase max_open_per_person context group run_id at s)
    pub by_resolve :
        (i : Incident) (at : ℕ) (run_id : String) (s : Store)
        → May i (some at) (some run_id)
        → P s
        → Ensures P (set_resolution i (some at) (some run_id) s)
    pub by_reopen :
        (i : Incident) (s : Store)
        → May i none none
        → P s
        → Ensures P (set_resolution i none none s)
    pub by_merge :
        (into seq : ℕ) (s : Store)
        → P s
        → P (record s {
          incidents = update_incident (λ j. record j { merged_into = some into }) seq s.incidents;
        })
    pub by_raise :
        (severity : Severity) (escalations : List Escalation) (seq : ℕ) (s : Store)
        → P s
        → P (record s {
          escalations = escalations;
          incidents = update_incident (λ i. record i { severity = severity }) seq s.incidents;
        })
    pub by_links :
        (links : List RunLink) (shared : List SharedNode) (s : Store)
        → P s
        → P (record s { run_links = links; shared_nodes = shared })
    pub by_notices : (notices : List Notice) (s : Store) → P s → P (record s { notices = notices })

-- The property does not read the rows of the check events.
pub record ByFiling (P : Store → Type 0) : Type 0 where
  pub by_filing : (rows : List EventRow) (s : Store) → P s → P (record s { check_events = rows })
