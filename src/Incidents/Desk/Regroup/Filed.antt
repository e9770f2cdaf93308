-- ===== src/Incidents/Desk/Regroup/Filed.antt =====
-- Where `_regroup` of src/platform_ops/incidents/desk.py files the check events of the run.
use data_platform_ops.Prelude.{
  All-intro, ℕ, String, Bool, true, false, ◌||◌, ◌≡◌, ◌⊎◌, inl, inr, refl, sym, ◌∙◌, subst, arith,
  Option, none, some, List, [], ◌∷◌, All, All-map_of, any_of, keep, map, Dict, values, sort_by,
  insert_by, str_leb, eqb_iff, eq_self, ◌==◌, Bool-cases,
}
use data_platform_ops.Metadata.Graph.{Networkx, Digraph}
use data_platform_ops.Incidents.Events.{CheckEvent}
use data_platform_ops.Incidents.Grouping.{roots_by_node}
use data_platform_ops.Incidents.Policy.{Moment}
use data_platform_ops.Incidents.Desk.Tables.{
  Incident, EventRow, Store, ok, ensured, failed, Ensures-if, Ensures-map, Ensures-ok,
}
use data_platform_ops.Incidents.Desk.Context.{Context}
use data_platform_ops.Incidents.Desk.Open.{open_incident, set_resolution}
use data_platform_ops.Incidents.Desk.Writes.{IsKept, Anyhow}
use data_platform_ops.Incidents.Desk.Assign.{was_before, is_mine}
use data_platform_ops.Incidents.Desk.Assign.Known.{IsKnown, assign-IsKnown}
use data_platform_ops.Incidents.Desk.Writes.Known.{
  numbered, Known, rows-IsKept, numbered-append, numbered-update_incident,
}
use data_platform_ops.Incidents.Desk.Regroup.{Regrouped, limited, regroup, events_of_run}
use data_platform_ops.Incidents.Desk.Regroup.Rows.{
  row_of, IsFiled, other_run, filed, Pending, file_events-IsFiled,
}
use data_platform_ops.Incidents.Desk.Regroup.Keyed.{IsKeyed, events_of_run-agree}
use data_platform_ops.Incidents.Desk.Regroup.Kept.{merge_untaken-Kept, regroup_events-Filed}

any_of-insert_by {ℓ} :
    {A : Type ℓ} (p : A → Bool) (le : A → A → Bool) (x : A) (xs : List A)
    → any_of p (insert_by le x xs) ≡ (p x || any_of p xs)
any_of-insert_by p le x [] = refl
any_of-insert_by p le x (y ∷ ys) = ground (arith, any_of-insert_by p le x ys)

any_of-sort_by {ℓ} :
    {A : Type ℓ} (p : A → Bool) (le : A → A → Bool) (xs : List A)
    → any_of p (sort_by le xs) ≡ any_of p xs
any_of-sort_by p le [] = refl
any_of-sort_by p le (x ∷ xs) =
    ground (arith, any_of-insert_by p le x (sort_by le xs), any_of-sort_by p le xs)

abbrev run_events : String → List EventRow → List CheckEvent
run_events run_id rows = map (λ row. row.event) (keep (λ row. row.event.run_id == run_id) rows)

run_events_more :
    (p : CheckEvent → Bool) (run_id : String) (row : EventRow) (rows : List EventRow)
    → any_of p (run_events run_id rows) ≡ true
    → any_of p (run_events run_id (row ∷ rows)) ≡ true
run_events_more p run_id row rows h = ground arith

run_events_self :
    (run_id : String) (row : EventRow) (rows : List EventRow)
    → (row.event.run_id == run_id) ≡ true
    → any_of (row_of row) (run_events run_id (row ∷ rows)) ≡ true
run_events_self run_id row rows e =
    ground (arith, eq_self row.event.run_id, eq_self row.event.check_id)

-- Every row of the run has its event among those of the run.
run_events-rows :
    (run_id : String) (rows : List EventRow)
    → All
        (λ row.
          (any_of (row_of row) (run_events run_id rows) ≡ true)
          ⊎ ((row.event.run_id == run_id) ≡ false))
        rows
run_events-rows run_id [] = tt
run_events-rows run_id (row ∷ rows) = (
  elim (Bool-cases (row.event.run_id == run_id)) [
    | inl e ↦ inl (run_events_self run_id row rows e)
    | inr ne ↦ inr ne
  ],
  All-map_of
      (λ other.
        (any_of (row_of other) (run_events run_id rows) ≡ true)
        ⊎ ((other.event.run_id == run_id) ≡ false))
      (λ other.
        (any_of (row_of other) (run_events run_id (row ∷ rows)) ≡ true)
        ⊎ ((other.event.run_id == run_id) ≡ false))
      rows
      (λ other h. elim h [
        | inl there ↦ inl (run_events_more (row_of other) run_id row rows there)
        | inr elsewhere ↦ inr elsewhere
      ])
      (run_events-rows run_id rows),
)

map-Known : (is : List Incident) → Known is (map (λ i. i.seq) is)
map-Known [] = tt
map-Known (i ∷ is) = (
  ground (arith, eqb_iff i.seq i.seq),
  All-map_of _ _ (map (λ j. j.seq) is) (λ n h. ground arith) (map-Known is),
)

keep-Known :
    (p : Incident → Bool) (is now : List Incident)
    → Known now (map (λ i. i.seq) is)
    → Known now (map (λ i. i.seq) (keep p is))
keep-Known p [] now k = tt
keep-Known p (i ∷ is) now k = elim (Bool-cases (p i)) [
  | inl e ↦ rw e (k.0, keep-Known p is now k.1)
  | inr ne ↦ rw ne (keep-Known p is now k.1)
]

one-IsFiled :
    (run_id : String) (root_of : Dict String) (assignment : Dict ℕ) (is more : List Incident)
    {row : EventRow}
    → ((n : ℕ) → numbered n is ≡ true → numbered n more ≡ true)
    → IsFiled run_id root_of assignment is row
    → IsFiled run_id root_of assignment more row
one-IsFiled run_id root_of assignment is more h (other_run e) = other_run e
one-IsFiled run_id root_of assignment is more h (filed root n m i r k) = filed root n m i r (h n k)

-- Where each row of the run is filed, by the roots of the run's events.
pub record IsFiledIn (nx : Networkx) (graph : Digraph) (run_id : String) (subjects : List String)
    (s : Store) : Type 0 where
  pub root_of : Dict String
  pub assignment : Dict ℕ
  pub rooted : roots_by_node nx graph subjects ≡ some root_of
  pub rows : All (IsFiled run_id root_of assignment s.incidents) s.check_events

limited-some : {A : Type 0} (o : Option A) (a : A) → ok a ≡ limited o → o ≡ some a
unfolding limited
limited-some none a h = cc
limited-some (some b) a h = cc

module _ (nx : Networkx) (fnmatchcase : String → String → Bool) (max_open_per_person : ℕ)
    (graph : Digraph) (run_id : String) (subjects : List String) where
  more_incidents :
      (s : Store) (more : List Incident)
      → ((n : ℕ) → numbered n s.incidents ≡ true → numbered n more ≡ true)
      → IsFiledIn nx graph run_id subjects s
      → IsFiledIn nx graph run_id subjects (record s { incidents = more })
  more_incidents s more h f = record {
    root_of = f.root_of;
    assignment = f.assignment;
    rooted = f.rooted;
    rows =
        All-map_of (IsFiled run_id f.root_of f.assignment s.incidents)
          (IsFiled run_id f.root_of f.assignment more) s.check_events
          (λ row g. one-IsFiled run_id f.root_of f.assignment s.incidents more h g) f.rows;
  }

  moved :
      (s : Store) (t : Store)
      → IsFiledIn nx graph run_id subjects s
      → t.incidents ≡ s.incidents
      → t.check_events ≡ s.check_events
      → IsFiledIn nx graph run_id subjects t
  moved s t f e r = record {
    root_of = f.root_of;
    assignment = f.assignment;
    rooted = f.rooted;
    rows =
        subst (λ is. All (IsFiled run_id f.root_of f.assignment is) t.check_events) (sym e)
          (subst (All (IsFiled run_id f.root_of f.assignment s.incidents)) (sym r) f.rows);
  }

  filed-IsKept :
      IsKept nx fnmatchcase max_open_per_person Anyhow (IsFiledIn nx graph run_id subjects)
  unfolding open_incident set_resolution
  filed-IsKept = record {
    by_open = λ context group run_id at s p.
        Ensures-if _ (failed _)
          (ensured _ (more_incidents s _ (λ n h. numbered-append n s.incidents _ h) p));
    by_resolve = λ i at run_id s u p. ensured _ (
        more_incidents s _ (λ n h. numbered-update_incident n _ i.seq s.incidents (λ j. refl) h) p);
    by_reopen = λ i s u p. Ensures-if _ (failed _) (
        ensured _ (
          more_incidents s _ (λ n h. numbered-update_incident n _ i.seq s.incidents (λ j. refl) h)
            p));
    by_merge = λ into seq s p.
        more_incidents s _ (λ n h. numbered-update_incident n _ seq s.incidents (λ j. refl) h) p;
    by_raise = λ severity escalations seq s p.
        moved _ _
          (more_incidents s _ (λ n h. numbered-update_incident n _ seq s.incidents (λ j. refl) h) p)
          refl refl;
    by_links = λ links shared s p. moved s _ p refl refl;
    by_notices = λ notices s p. moved s _ p refl refl;
  }

All-pair :
    {P Q R : EventRow → Type 0} (rows : List EventRow)
    → ((row : EventRow) → P row → Q row → R row)
    → All P rows
    → All Q rows
    → All R rows
All-pair [] h p q = tt
All-pair (row ∷ rows) h p q = (h row p.0 q.0, All-pair rows h p.1 q.1)

events_of_run-Pending :
    (run_id : String) (root_of : Dict String) (assignment : Dict ℕ) (is : List Incident)
    (known : Known is (values assignment)) (rows : List EventRow)
    → IsKeyed rows
    → All (Pending run_id root_of assignment is known (events_of_run run_id rows)) rows
unfolding Pending events_of_run
events_of_run-Pending run_id root_of assignment is known rows keyed =
    All-pair rows
      (λ row agree h. elim h [
        | inl there ↦ (
          agree,
          inl (
              any_of-sort_by (row_of row) (λ a b. str_leb a.check_id b.check_id)
                (run_events run_id rows)
              ∙ there),
        )
        | inr elsewhere ↦ (agree, inr (other_run elsewhere))
      ])
      (events_of_run-agree run_id rows keyed) (run_events-rows run_id rows)

-- Where `_regroup` succeeds on a store whose check events meet their table's primary key, every check event of its run,
-- those of earlier invocations included, is filed under an incident of the store that it returns: the one assigned to the
-- root that `roots_by_node` gives the event's own subject. So events whose subjects have the same root are filed under the
-- same incident.
pub regroup-IsFiledIn :
    (nx : Networkx) (fnmatchcase : String → String → Bool) (max_open_per_person : ℕ)
    (context : Context) (run_id : String) (at : Moment) (s : Store) (done : Regrouped)
    → IsKeyed s.check_events
    → regroup nx fnmatchcase max_open_per_person context run_id at s ≡ ok done
    → IsFiledIn nx context.graph run_id
        (map (λ e. e.subject) (events_of_run run_id s.check_events))
        done.store
unfolding regroup
regroup-IsFiledIn nx fnmatchcase max_open_per_person context run_id at s done keyed h =
    let rows = s.check_events in
    let before = keep (was_before run_id at.instant) s.incidents in
    let subjects = map (λ e. e.subject) (events_of_run run_id rows) in
    Ensures-ok
      (regroup_events-Filed nx fnmatchcase max_open_per_person context
        (IsFiledIn nx context.graph run_id subjects)
        (filed-IsKept nx fnmatchcase max_open_per_person context.graph run_id subjects)
        (IsKnown nx fnmatchcase max_open_per_person context run_id at _ before rows)
        (λ a m. (m.check_events ≡ rows) × Known m.incidents (values a.assignment)) run_id at
        (events_of_run run_id rows) _ _ before s
        (All-intro _ _ (λ i. ((λ well. tt), (λ by_it. tt))))
        (λ groups.
          assign-IsKnown nx fnmatchcase max_open_per_person context run_id at _ before rows groups s
            refl (keep-Known (is_mine run_id) s.incidents s.incidents (map-Known s.incidents))
            (keep-Known (was_before run_id at.instant) s.incidents s.incidents
              (map-Known s.incidents)))
        (λ root_of a k.
          merge_untaken-Kept nx fnmatchcase max_open_per_person context
            (λ m. (m.check_events ≡ rows) × Known m.incidents (values a.assignment))
            (rows-IsKept nx fnmatchcase max_open_per_person rows (values a.assignment))
            (values a.assignment) a.assignment root_of a.mine a.store (k.rows_kept, k.assigned))
        (λ root_of a merged rooted m.
          Ensures-map
            (file_events-IsFiled run_id root_of a.assignment merged.incidents m.1
              (events_of_run run_id rows) merged refl
              (subst
                (All (
                  Pending run_id root_of a.assignment merged.incidents m.1
                    (events_of_run run_id rows)))
                (sym m.0)
                (events_of_run-Pending run_id root_of a.assignment merged.incidents m.1 rows
                  keyed)))
            (λ s' f. record {
              root_of = root_of;
              assignment = a.assignment;
              rooted = limited-some _ root_of rooted;
              rows =
                  subst (λ is. All (IsFiled run_id root_of a.assignment is) s'.check_events)
                    (sym f.0) f.1;
            })))
      h
