-- ===== src/Incidents/Desk/Assign/Known.antt =====
-- Every incident that the loop of `_regroup` in src/platform_ops/incidents/desk.py assigns is in the store.
use data_platform_ops.Prelude.{
  ℕ, String, Bool, true, ◌≡◌, inl, inr, refl, sym, ap, subst, Option, none, List, [], ◌∷◌, ◌++◌,
  All, All-append, All-map_of, keep, map, Dict, put, values, sort_by, str_leb, ◌==◌, Bool-cases,
}
use data_platform_ops.Metadata.Graph.{Networkx}
use data_platform_ops.Incidents.Grouping.{Group}
use data_platform_ops.Incidents.Policy.{Moment}
use data_platform_ops.Incidents.Desk.Tables.{
  Incident, EventRow, Store, Ensures, ensured, failed, Ensures->>=, Ensures-if,
}
use data_platform_ops.Incidents.Desk.Context.{Context}
use data_platform_ops.Incidents.Desk.Open.{new_incident, open_incident, set_resolution}
use data_platform_ops.Incidents.Desk.Writes.Known.{
  numbered, Known, numbered-append, numbered_last, numbered-update_incident,
}
use data_platform_ops.Incidents.Desk.Assign.Choice.{
  Holds, nothing, there, find_first-Holds, continued-Holds,
}
use data_platform_ops.Incidents.Desk.Assign.{
  Assigned, give, append_to, open_for, place, assign_one, assign_all, assign, resolved_by, is_mine,
}

-- The incident, if there is one, is in the store.
abbrev InStore : List Incident → Option Incident → Type 0
InStore now o = Holds (λ i. numbered i.seq now ≡ true) o

All-numbers :
    (now is : List Incident)
    → Known now (map (λ j. j.seq) is)
    → All (λ i. numbered i.seq now ≡ true) is
All-numbers now [] k = tt
All-numbers now (i ∷ is) k = (k.0, All-numbers now is k.1)

All-put :
    (P : ℕ → Type 0) (k : String) (n : ℕ) (m : Dict ℕ)
    → P n
    → All P (values m)
    → All P (values (put k n m))
unfolding put
All-put P k n [] p h = (p, tt)
All-put P k n ((j, v) ∷ m) p h = elim (Bool-cases (j == k)) [
  | inl e ↦ rw e (p, h.1)
  | inr ne ↦ rw ne (h.0, All-put P k n m p h.1)
]

module _ (nx : Networkx) (fnmatchcase : String → String → Bool) (max_open_per_person : ℕ)
    (context : Context) (run_id : String) (at : Moment) (statuses : Dict String)
    (before : List Incident) (rows : List EventRow) where
  -- What holds of the state of the loop: the events' rows are untouched, and the numbers assigned, those of the run's
  -- own incidents and those of the incidents before it are in the store.
  pub record IsKnown (a : Assigned) : Type 0 where
    pub rows_kept : a.store.check_events ≡ rows
    pub assigned : Known a.store.incidents (values a.assignment)
    pub own : Known a.store.incidents (map (λ i. i.seq) a.mine)
    pub earlier : Known a.store.incidents (map (λ i. i.seq) before)

  -- A write that keeps what is known, and one more number for a root.
  IsKnown-write :
      (a : Assigned) (s : Store) (appended : List ℕ)
      → IsKnown a
      → ((ns : List ℕ) → Known a.store.incidents ns → Known s.incidents ns)
      → s.check_events ≡ rows
      → IsKnown (record a { store = s; appended = appended })
  IsKnown-write a s appended k keeps same = record {
    rows_kept = same;
    assigned = keeps _ k.assigned;
    own = keeps _ k.own;
    earlier = keeps _ k.earlier;
  }

  give-IsKnown :
      (group : Group) (i : Incident) (a : Assigned)
      → numbered i.seq a.store.incidents ≡ true
      → IsKnown a
      → IsKnown
          (give nx fnmatchcase max_open_per_person context run_id at statuses before group i a)
  unfolding give
  give-IsKnown group i a n k = record {
    rows_kept = k.rows_kept;
    assigned =
        All-put (λ n. numbered n a.store.incidents ≡ true) group.root i.seq a.assignment n
          k.assigned;
    own = k.own;
    earlier = k.earlier;
  }

  -- A resolution of an incident keeps the rows and what is known.
  resolution-keeps :
      (i : Incident) (s : Store)
      → s.check_events ≡ rows
      → Ensures
          (λ s'.
            (s'.check_events ≡ rows)
            × ((ns : List ℕ) → Known s.incidents ns → Known s'.incidents ns))
          (set_resolution i none none s)
  unfolding set_resolution
  resolution-keeps i s same = Ensures-if _ (failed _) (
      ensured _ (
        same,
        λ ns k.
            All-map_of (λ n. numbered n s.incidents ≡ true) _ ns
              (λ n h. numbered-update_incident n _ i.seq s.incidents (λ j. refl) h) k,
      ))

  append_to-IsKnown :
      (i : Incident) (a : Assigned)
      → IsKnown a
      → Ensures IsKnown
          (append_to nx fnmatchcase max_open_per_person context run_id at statuses before i a)
  unfolding append_to
  append_to-IsKnown i a k =
      Ensures->>=
        (Ensures-if (resolved_by run_id i) (resolution-keeps i a.store k.rows_kept)
          (ensured _ (k.rows_kept, λ ns h. h)))
        (λ s q. ensured _ (IsKnown-write a s _ k q.1 q.0))

  append-Known :
      (is : List Incident) (i : Incident) (ns : List ℕ) → Known is ns → Known (is ++ (i ∷ [])) ns
  append-Known is i ns k =
      All-map_of (λ n. numbered n is ≡ true) _ ns (λ n h. numbered-append n is i h) k

  map-snoc :
      (is : List Incident) (i : Incident)
      → map (λ j. j.seq) (is ++ (i ∷ [])) ≡ map (λ j. j.seq) is ++ (i.seq ∷ [])
  map-snoc [] i = refl
  map-snoc (j ∷ is) i = ap (λ ns. j.seq ∷ ns) (map-snoc is i)

  open_for-IsKnown :
      (group : Group) (a : Assigned)
      → IsKnown a
      → Ensures IsKnown
          (open_for nx fnmatchcase max_open_per_person context run_id at statuses before group a)
  unfolding open_for open_incident
  open_for-IsKnown group a k =
      let is = a.store.incidents in
      let i = new_incident nx fnmatchcase max_open_per_person context group run_id at is in
      Ensures->>= {A = Store × Incident}
        {P = λ made. made ≡ (record (a.store) { incidents = is ++ (i ∷ []) }, i)}
        (Ensures-if _ (failed _) (ensured _ refl))
        (λ made e. ensured _ (
          subst
            (λ made. IsKnown (record {
              store = made.0;
              mine = a.mine ++ (made.1 ∷ []);
              opened = a.opened ++ (made.1.seq ∷ []);
              appended = a.appended;
              assignment = put group.root made.1.seq a.assignment;
            }))
            (sym e)
            (record {
              rows_kept = k.rows_kept;
              assigned =
                  All-put (λ n. numbered n (is ++ (i ∷ [])) ≡ true) group.root i.seq a.assignment
                    (numbered_last is i) (append-Known is i _ k.assigned);
              own = subst (Known (is ++ (i ∷ []))) (sym (map-snoc a.mine i)) (
                  All-append _ _ (i.seq ∷ []) (append-Known is i _ k.own) (numbered_last is i, tt));
              earlier = append-Known is i _ k.earlier;
            })))

  place-IsKnown :
      (group : Group) (a : Assigned) {continues own : Option Incident}
      → InStore a.store.incidents continues
      → InStore a.store.incidents own
      → IsKnown a
      → Ensures IsKnown (
          place nx fnmatchcase max_open_per_person context run_id at statuses before continues own
            group a)
  unfolding place
  place-IsKnown group a (there i n) own k = append_to-IsKnown i _ (give-IsKnown group i a n k)
  place-IsKnown group a nothing (there i n) k = ensured _ (give-IsKnown group i a n k)
  place-IsKnown group a nothing nothing k = open_for-IsKnown group a k

  assign_all-IsKnown :
      (groups : List Group) (a : Assigned)
      → IsKnown a
      → Ensures IsKnown
          (assign_all nx fnmatchcase max_open_per_person context run_id at statuses before groups a)
  unfolding assign_all assign_one
  assign_all-IsKnown [] a k = ensured a k
  assign_all-IsKnown (group ∷ groups) a k =
      Ensures->>=
        (place-IsKnown group a
          (continued-Holds nx fnmatchcase max_open_per_person context run_id at statuses before _
            group (All-numbers a.store.incidents before k.earlier))
          (find_first-Holds _ a.mine (All-numbers a.store.incidents a.mine k.own)) k)
        (λ next q. assign_all-IsKnown groups next q)

  -- Where the incidents before the run and its own are in the store, so is each that the loop assigns.
  pub assign-IsKnown :
      (groups : List Group) (s : Store)
      → s.check_events ≡ rows
      → Known s.incidents (map (λ i. i.seq) (keep (is_mine run_id) s.incidents))
      → Known s.incidents (map (λ i. i.seq) before)
      → Ensures IsKnown
          (assign nx fnmatchcase max_open_per_person context run_id at statuses before groups s)
  unfolding assign
  assign-IsKnown groups s same own earlier =
      assign_all-IsKnown (sort_by (λ a b. str_leb a.root b.root) groups) _
        (record { rows_kept = same; assigned = tt; own = own; earlier = earlier })
