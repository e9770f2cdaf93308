-- ===== src/Incidents/Desk/Regroup/Healthy.antt =====
-- Which incidents `_regroup` of src/platform_ops/incidents/desk.py resolves, and what it leaves of those before it.
use data_platform_ops.Prelude.{
  Option, ℕ, String, true, none, some, List, [], ◌∷◌, Dict, ◌≡◌, ◌⊎◌, All,
}
use data_platform_ops.Incidents.Desk.Tables.{Incident, Store}
use data_platform_ops.Incidents.Desk.Context.{Context, healthy}
use data_platform_ops.Incidents.Desk.Assign.{resolved_by}
use data_platform_ops.Incidents.Desk.Writes.Numbers.{IsNumbered}

-- One of the incidents has this one's number and root, and was resolved by the same run, or by none.
abbrev Held : Incident → List Incident → Type 0
Held i [] = ⊥
Held i (k ∷ ks) =
    ((k.seq ≡ i.seq) × (k.root ≡ i.root) × (k.resolved_by_run ≡ i.resolved_by_run)) ⊎ Held i ks

module _ (context : Context) (statuses : Dict String) (at : ℕ) (run_id : String) where
  -- The resolution of an incident, before the run and after it.
  pub data Resolution (before after : Incident) : Type 0 where
    as_before :
        after.resolved_at ≡ before.resolved_at
        → after.resolved_by_run ≡ before.resolved_by_run
        → Resolution before after
    reopened :
        resolved_by run_id before ≡ true
        → after.resolved_at ≡ none
        → after.resolved_by_run ≡ none
        → Resolution before after
    found_healthy :
        healthy after.root context statuses ≡ true
        → after.resolved_at ≡ some at
        → after.resolved_by_run ≡ some run_id
        → Resolution before after

  abbrev pub Continues : Incident → Incident → Type 0
  Continues before after =
      (after.seq ≡ before.seq) × (after.root ≡ before.root) × Resolution before after

  -- The incidents of the first list continue, in their places, and those after them are open.
  abbrev pub Grown : List Incident → List Incident → Type 0
  Grown [] js = All (λ j. j.resolved_at ≡ none) js
  Grown (i ∷ is) [] = ⊥
  Grown (i ∷ is) (j ∷ js) = Continues i j × Grown is js

  -- What is known where the resolution of an incident is written: it is one of those before, and found healthy now, or
  -- resolved by this run before.
  abbrev MayWrite : List Incident → Incident → Option ℕ → Option String → Type 0
  MayWrite is i (some now) (some run) =
      Held i is × (healthy i.root context statuses ≡ true) × (now ≡ at) × (run ≡ run_id)
  MayWrite is i none none = Held i is × (resolved_by run_id i ≡ true)
  MayWrite is i _ _ = ⊥

  abbrev Numbered : List Incident → Store → Type 0
  Numbered is s = IsNumbered 0 s.incidents × Grown is s.incidents
