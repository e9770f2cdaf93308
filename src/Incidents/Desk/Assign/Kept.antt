-- ===== src/Incidents/Desk/Assign/Kept.antt =====
-- The loop over the groups keeps what every write keeps: `_regroup` of src/platform_ops/incidents/desk.py.
use data_platform_ops.Prelude.{
  ◌≡◌, true, All, ℕ, String, Bool, Option, none, some, List, [], ◌∷◌, Dict, sort_by, str_leb,
}
use data_platform_ops.Metadata.Graph.{Networkx}
use data_platform_ops.Incidents.Grouping.{Group}
use data_platform_ops.Incidents.Policy.{Moment}
use data_platform_ops.Incidents.Desk.Tables.{
  Incident, Store, Ensures, ensured, Ensures->>=, Ensures-when,
}
use data_platform_ops.Incidents.Desk.Context.{Context}
use data_platform_ops.Incidents.Desk.Writes.{IsKept}
use data_platform_ops.Incidents.Desk.Assign.Choice.{Holds, nothing, there, continued-Holds}
use data_platform_ops.Incidents.Desk.Assign.{
  Assigned, give, append_to, open_for, place, assign_one, assign_all, assign, resolved_by,
}

module _ (nx : Networkx) (fnmatchcase : String → String → Bool) (max_open_per_person : ℕ)
    (context : Context) (run_id : String) (at : Moment) (statuses : Dict String)
    (before : List Incident) (P : Store → Type 0)
    {May : Incident → Option ℕ → Option String → Type 0}
    (kept : IsKept nx fnmatchcase max_open_per_person May P)
    (may : All (λ i. resolved_by run_id i ≡ true → May i none none) before) where
  append_to-Kept :
      (i : Incident) (state : Assigned)
      → (resolved_by run_id i ≡ true → May i none none)
      → P (state.store)
      → Ensures
          (λ next. P (next.store))
          (append_to nx fnmatchcase max_open_per_person context run_id at statuses before i state)
  unfolding append_to
  append_to-Kept i state may p =
      Ensures->>=
        (Ensures-when (resolved_by run_id i) (λ by_it. kept.by_reopen i (state.store) (may by_it) p)
          (ensured _ p))
        (λ s q. ensured _ q)

  open_for-Kept :
      (group : Group) (state : Assigned)
      → P (state.store)
      → Ensures
          (λ next. P (next.store))
          (open_for nx fnmatchcase max_open_per_person context run_id at statuses before group
            state)
  unfolding open_for
  open_for-Kept group state p =
      Ensures->>= (kept.by_open context group run_id at (state.store) p) (λ made q. ensured _ q)

  place-Kept :
      (continues own : Option Incident) (group : Group) (state : Assigned)
      → Holds (λ i. resolved_by run_id i ≡ true → May i none none) continues
      → P (state.store)
      → Ensures
          (λ next. P (next.store))
          (place nx fnmatchcase max_open_per_person context run_id at statuses before continues own
            group state)
  unfolding place give
  place-Kept (some i) own group state (there j may) p = append_to-Kept i _ may p
  place-Kept none (some i) group state nothing p = ensured _ p
  place-Kept none none group state nothing p = open_for-Kept group state p

  assign_one-Kept :
      (group : Group) (state : Assigned)
      → P (state.store)
      → Ensures
          (λ next. P (next.store))
          (assign_one nx fnmatchcase max_open_per_person context run_id at statuses before group
            state)
  unfolding assign_one
  assign_one-Kept group state p =
      place-Kept _ _ group state
        (continued-Holds nx fnmatchcase max_open_per_person context run_id at statuses before _
          group may)
        p

  assign_all-Kept :
      (groups : List Group) (state : Assigned)
      → P (state.store)
      → Ensures
          (λ next. P (next.store))
          (assign_all nx fnmatchcase max_open_per_person context run_id at statuses before groups
            state)
  unfolding assign_all
  assign_all-Kept [] state p = ensured state p
  assign_all-Kept (group ∷ groups) state p =
      Ensures->>= (assign_one-Kept group state p) (λ next q. assign_all-Kept groups next q)

  pub assign-Kept :
      (groups : List Group) (store : Store)
      → P store
      → Ensures
          (λ next. P (next.store))
          (assign nx fnmatchcase max_open_per_person context run_id at statuses before groups store)
  unfolding assign
  assign-Kept groups store p = assign_all-Kept (sort_by (λ a b. str_leb a.root b.root) groups) _ p
