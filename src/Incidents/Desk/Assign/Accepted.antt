-- ===== src/Incidents/Desk/Assign/Accepted.antt =====
-- When the index of one open incident for each root refuses no write of the loop of `_regroup` in
-- src/platform_ops/incidents/desk.py.
use data_platform_ops.Prelude.{
  ℕ, String, Bool, true, false, not, ◌||◌, ◌≡◌, inl, inr, refl, ap, ◌∙◌, arith, Option, none, some,
  List, [], ◌∷◌, ◌++◌, All, any_of, find_first, keep, Dict, sort_by, str_leb, leb, ◌==◌, Bool-cases,
}
use data_platform_ops.Metadata.Graph.{Networkx}
use data_platform_ops.Incidents.Grouping.{Group}
use data_platform_ops.Incidents.Policy.{Moment}
use data_platform_ops.Incidents.Desk.Tables.{Incident, Store, ok, Result, ◌>>=◌, is_open, open_at}
use data_platform_ops.Incidents.Desk.Context.{Context}
use data_platform_ops.Incidents.Desk.Open.{new_incident, open_incident}
use data_platform_ops.Incidents.Desk.Assign.Choice.{Holds, nothing, there, continued-Holds}
use data_platform_ops.Incidents.Desk.Assign.{
  Assigned, give, append_to, open_for, place, assign_one, assign_all, assign, continued, or_else,
  resolved_by, was_before, is_mine,
}

-- Some incident of the list is at the root.
abbrev at_root : String → List Incident → Bool
at_root root is = any_of (λ i. i.root == root) is

find_first-none :
    (p : Incident → Bool) (is : List Incident) → find_first p is ≡ none → any_of p is ≡ false
find_first-none p [] h = refl
find_first-none p (i ∷ is) h = ground (arith, find_first-none p is)

or_else-none : (o other : Option Incident) → or_else o other ≡ none → o ≡ none
unfolding or_else
or_else-none none other h = refl
or_else-none (some i) other h = h

any_of-snoc :
    (p : Incident → Bool) (is : List Incident) (i : Incident)
    → any_of p (is ++ (i ∷ [])) ≡ (any_of p is || p i)
any_of-snoc p [] i = ground arith
any_of-snoc p (j ∷ is) i = ground (arith, any_of-snoc p is i)

open_at-snoc :
    (root : String) (is : List Incident) (i : Incident)
    → open_at root (is ++ (i ∷ [])) ≡ true
    → (open_at root is || (i.root == root)) ≡ true
unfolding open_at
open_at-snoc root [] i h = ground arith
open_at-snoc root (j ∷ is) i h = ground (arith, open_at-snoc root is i)

module _ (nx : Networkx) (fnmatchcase : String → String → Bool) (max_open_per_person : ℕ)
    (context : Context) (run_id : String) (at : Moment) (statuses : Dict String)
    (before : List Incident) where
  -- Each root with an open incident has one among those before the run or among the run's own.
  record IsGuarded (a : Assigned) : Type 0 where
    guards :
        (root : String)
        → open_at root a.store.incidents ≡ true
        → (at_root root before || at_root root a.mine) ≡ true

  Accepts : Result Assigned → Type 0
  Accepts m = (a : Assigned) × (m ≡ ok a) × IsGuarded a

  guards-snoc :
      (a : Assigned) (i : Incident)
      → IsGuarded a
      → (root : String) → open_at root (a.store.incidents ++ (i ∷ [])) ≡ true
      → (at_root root before || at_root root (a.mine ++ (i ∷ []))) ≡ true
  guards-snoc a i g root h =
      let among = open_at-snoc root a.store.incidents i h in
      let own = any_of-snoc (λ j. j.root == root) a.mine i in
      elim (Bool-cases (open_at root a.store.incidents)) [
        | inl e ↦ let guarded = g.guards root e in ground arith
        | inr ne ↦ ground arith
      ]

  open_for-Accepts :
      (group : Group) (a : Assigned)
      → at_root group.root before ≡ false
      → at_root group.root a.mine ≡ false
      → IsGuarded a
      → Accepts
          (open_for nx fnmatchcase max_open_per_person context run_id at statuses before group a)
  unfolding Accepts open_for open_incident new_incident
  open_for-Accepts group a no_earlier no_own g =
      elim (Bool-cases (open_at group.root a.store.incidents)) [
        | inl e ↦ let clash = g.guards group.root e in ground arith
        | inr free ↦ rw free ((_, refl, record { guards = guards-snoc a _ g }))
      ]

  append_to-Accepts :
      (i : Incident) (a : Assigned)
      → resolved_by run_id i ≡ false
      → IsGuarded a
      → Accepts (append_to nx fnmatchcase max_open_per_person context run_id at statuses before i a)
  unfolding Accepts append_to
  append_to-Accepts i a fresh g = rw fresh (_, refl, record { guards = g.guards })

  place-Accepts :
      (group : Group) (a : Assigned) {continues : Option Incident} (own : Option Incident)
      → Holds (λ i. resolved_by run_id i ≡ false) continues
      → (continues ≡ none → at_root group.root before ≡ false)
      → (own ≡ none → at_root group.root a.mine ≡ false)
      → IsGuarded a
      → Accepts (
          place nx fnmatchcase max_open_per_person context run_id at statuses before continues own
            group a)
  unfolding place give Accepts
  place-Accepts group a own (there i fresh) e m g =
      append_to-Accepts i _ fresh (record { guards = g.guards })
  place-Accepts group a (some i) nothing e m g = (_, refl, record { guards = g.guards })
  place-Accepts group a none nothing e m g = open_for-Accepts group a (e refl) (m refl) g

  continued-none :
      (group : Group)
      → continued nx fnmatchcase max_open_per_person context run_id at statuses before group ≡ none
      → at_root group.root before ≡ false
  unfolding continued
  continued-none group h =
      find_first-none (λ i. i.root == group.root) before
        (or_else-none (find_first (λ i. i.root == group.root) before) _ h)

  assign_all-Accepts :
      (groups : List Group) (a : Assigned)
      → All (λ i. resolved_by run_id i ≡ false) before
      → IsGuarded a
      → Accepts
          (assign_all nx fnmatchcase max_open_per_person context run_id at statuses before groups a)
  unfolding Accepts assign_all assign_one
  assign_all-Accepts [] a fresh g = (a, refl, g)
  assign_all-Accepts (group ∷ groups) a fresh g =
      let (next, done, kept) =
        place-Accepts group a (find_first (λ i. i.root == group.root) a.mine)
          (continued-Holds nx fnmatchcase max_open_per_person context run_id at statuses before
            (λ i. resolved_by run_id i ≡ false) group fresh)
          (continued-none group) (find_first-none (λ i. i.root == group.root) a.mine) g in
      let (last, all_done, guarded) = assign_all-Accepts groups next fresh kept in
      (
        last,
        ap
              (λ m.
                m
                >>= assign_all nx fnmatchcase max_open_per_person context run_id at statuses before
                    groups)
              done
            ∙ all_done,
        guarded,
      )

-- The incident is not open, or it was opened by the run, or no later than the instant.
abbrev pub in_order : String → ℕ → Incident → Bool
in_order run_id at i = not (is_open i) || ((i.opened_by_run == run_id) || leb i.opened_at at)

guarded_first :
    (run_id : String) (at : ℕ) (is : List Incident) (root : String)
    → All (λ i. in_order run_id at i ≡ true) is
    → open_at root is ≡ true
    → (at_root root (keep (was_before run_id at) is) || at_root root (keep (is_mine run_id) is))
      ≡ true
unfolding was_before is_mine is_open open_at
guarded_first run_id at [] root h o = ground arith
guarded_first run_id at (i ∷ is) root h o =
    let ordered = h.0 in
    elim (Bool-cases (open_at root is)) [
      | inl later ↦ let rest = guarded_first run_id at is root h.1 later in ground arith
      | inr now ↦ ground arith
    ]

-- Where every open incident was opened by this run or no later than the run's instant, and the run resolved none of the
-- incidents before it, the loop that assigns the groups returns: the index that allows one open incident for each root
-- refuses no insert and no reopening, whatever the groups are.
pub assign-accepted :
    (nx : Networkx) (fnmatchcase : String → String → Bool) (max_open_per_person : ℕ)
    (context : Context) (run_id : String) (at : Moment) (statuses : Dict String)
    (groups : List Group) (s : Store)
    → All (λ i. in_order run_id at.instant i ≡ true) s.incidents
    → All (λ i. resolved_by run_id i ≡ false) (keep (was_before run_id at.instant) s.incidents)
    → (a : Assigned) × (assign nx fnmatchcase max_open_per_person context run_id at statuses
          (keep (was_before run_id at.instant) s.incidents)
          groups
          s
        ≡ ok a)
unfolding assign Accepts
assign-accepted nx fnmatchcase max_open_per_person context run_id at statuses groups s ordered
      fresh =
    let (a, done, guarded) =
      assign_all-Accepts nx fnmatchcase max_open_per_person context run_id at statuses
        (keep (was_before run_id at.instant) s.incidents)
        (sort_by (λ a b. str_leb a.root b.root) groups) _ fresh
        (record {
          guards = λ root o. guarded_first run_id at.instant s.incidents root ordered o;
        }) in
    (a, done)
