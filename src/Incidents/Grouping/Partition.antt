-- ===== src/Incidents/Grouping/Partition.antt =====
-- `group_failures` of src/platform_ops/incidents/grouping.py: the groups are a partition of the failing
-- checks by their root.
use data_platform_ops.Prelude.{
  ℕ, String, ◌≡◌, ◌≢◌, refl, sym, ap, ◌∙◌, subst, true, some, List, [], ◌∷◌, map, contains, sum_of,
  sum_of-map, All, sum_of-sort_by, sort_by, arith, eq_self, Dict, keys, append_at, sorted_set,
  contains-sorted_set, IsStrict, sorted_set-IsStrict, Distinct, Distinct-append_at, total,
  total-append_at, sum-sorted_keys, Entries, Entries-append_at, Entries-get, ◌+◌,
}
use data_platform_ops.Metadata.Graph.{Digraph, Networkx, IsClosed}
use data_platform_ops.Incidents.Events.{CheckEvent, event_leb}
use data_platform_ops.Incidents.Grouping.{
  Group, roots_by_node, root_in, events_by_root, group_of, groups_from, group_failures,
  skipped_by_root, shared_failures,
}
use data_platform_ops.Incidents.Grouping.Roots.{
  IsAcyclic, IsRoot, MapsToRoots, roots_by_node-MapsToRoots,
}

abbrev pub subjects : List CheckEvent → List String
subjects events = map (λ e. e.subject) events

-- Groups of the given failing checks, one for each root.
pub record IsPartition (g : Digraph) (events : List CheckEvent) (groups : List Group) : Type 0 where
  -- every measure of the checks has the same total: each check is in one group, once
  pub each_once :
      (f : CheckEvent → ℕ) → sum_of (λ grp. sum_of f grp.events) groups ≡ sum_of f events
  -- no group is empty, and a group's root is the root of each check's subject
  pub rooted :
      All
        (λ grp.
          (grp.events ≢ [])
          × All (λ e. IsRoot g (subjects (sort_by event_leb events)) e.subject grp.root) grp.events)
        groups
  -- ordered by root, so no root twice
  pub ordered : IsStrict (map (λ grp. grp.root) groups)

subjects_found :
    (failed : List String) (events : List CheckEvent)
    → ((s : String) → contains s (subjects events) ≡ true → contains s failed ≡ true)
    → All (λ e. contains e.subject failed ≡ true) events
subjects_found failed [] sub = tt
subjects_found failed (e ∷ events) sub = (
  sub e.subject (ground (arith, eq_self e.subject)),
  subjects_found failed events (λ s h. sub s (ground arith)),
)

module _ (root_of : Dict String) where
  events_by_root-Distinct :
      (events : List CheckEvent) (found : Dict (List CheckEvent))
      → Distinct (keys found)
      → Distinct (keys (events_by_root root_of events found))
  unfolding events_by_root
  events_by_root-Distinct [] found d = d
  events_by_root-Distinct (e ∷ events) found d =
      events_by_root-Distinct events (append_at (root_in root_of e.subject) e found)
        (Distinct-append_at (root_in root_of e.subject) e found d)

  total-events_by_root :
      (f : CheckEvent → ℕ) (events : List CheckEvent) (found : Dict (List CheckEvent))
      → total f (events_by_root root_of events found) ≡ sum_of f events + total f found
  unfolding events_by_root
  total-events_by_root f [] found = omega arith
  total-events_by_root f (e ∷ events) found =
      let root = root_in root_of e.subject in
      omega (
        arith,
        total-events_by_root f events (append_at root e found),
        total-append_at f root e found,
      )

  module _ (P : String → CheckEvent → Type 0) (at_root : (e : CheckEvent) → Type 0)
      (keep_root : (e : CheckEvent) → at_root e → P (root_in root_of e.subject) e) where
    events_by_root-Entries :
        (events : List CheckEvent) (found : Dict (List CheckEvent))
        → All at_root events
        → Entries P found
        → Entries P (events_by_root root_of events found)
    unfolding events_by_root
    events_by_root-Entries [] found a h = h
    events_by_root-Entries (e ∷ events) found a h =
        let root = root_in root_of e.subject in
        events_by_root-Entries events (append_at root e found) a.1
          (Entries-append_at P root e found (keep_root e a.0) h)

map-root :
    (events_of : Dict (List CheckEvent)) (skipped_of shared : Dict (List String)) (ks : List String)
    → map (λ grp. grp.root) (map (group_of events_of skipped_of shared) ks) ≡ ks
unfolding group_of
map-root events_of skipped_of shared [] = refl
map-root events_of skipped_of shared (k ∷ ks) =
    ap (λ rest. k ∷ rest) (map-root events_of skipped_of shared ks)

module _ (nx : Networkx) (g : Digraph) (events : List CheckEvent) (skipped : List String)
    (root_of : Dict String)
    (maps : MapsToRoots g (subjects (sort_by event_leb events)) root_of) where
  abbrev ordered_events : List CheckEvent
  ordered_events = sort_by event_leb events

  abbrev by_root : Dict (List CheckEvent)
  by_root = events_by_root root_of ordered_events []

  abbrev RootedAt : String → CheckEvent → Type 0
  RootedAt root e = IsRoot g (subjects ordered_events) e.subject root

  by_root-Entries : Entries RootedAt by_root
  by_root-Entries =
      events_by_root-Entries root_of RootedAt
        (λ e. contains e.subject (subjects ordered_events) ≡ true)
        (λ e m.
          let (r, entry, root) = maps.total e.subject m in
          let same : r ≡ root_in root_of e.subject = ground arith in
          subst (λ x. RootedAt x e) same root)
        ordered_events [] (subjects_found (subjects ordered_events) ordered_events (λ s h. h)) tt

  group-rooted :
      (skipped_of shared : Dict (List String)) (ks : List String)
      → ((k : String) → contains k ks ≡ true → contains k (keys by_root) ≡ true)
      → All
          (λ grp. (grp.events ≢ []) × All (RootedAt grp.root) grp.events)
          (map (group_of by_root skipped_of shared) ks)
  unfolding group_of
  group-rooted skipped_of shared [] sub = tt
  group-rooted skipped_of shared (k ∷ ks) sub = (
    Entries-get RootedAt k by_root (sub k (ground (arith, eq_self k))) by_root-Entries,
    group-rooted skipped_of shared ks (λ j h. sub j (ground arith)),
  )

  groups_from-IsPartition : IsPartition g events (groups_from nx g root_of ordered_events skipped)
  unfolding groups_from group_of
  groups_from-IsPartition = record {
    each_once = λ f.
        sum_of-map (λ (grp : Group). sum_of f grp.events)
          (group_of by_root (skipped_by_root nx g root_of skipped [])
            (shared_failures nx g root_of))
          (sorted_set (keys by_root))
        ∙ sum-sorted_keys f by_root (events_by_root-Distinct root_of ordered_events [] tt)
        ∙ omega (
          arith,
          total-events_by_root root_of f ordered_events [],
          sum_of-sort_by f event_leb events,
        );
    rooted =
        group-rooted (skipped_by_root nx g root_of skipped []) (shared_failures nx g root_of)
          (sorted_set (keys by_root)) (λ k h. sym (contains-sorted_set k (keys by_root)) ∙ h);
    ordered =
        subst IsStrict
          (sym (
            map-root by_root (skipped_by_root nx g root_of skipped [])
              (shared_failures nx g root_of) (sorted_set (keys by_root))))
          (sorted_set-IsStrict (keys by_root));
  }

group_failures_found :
    (nx : Networkx) (g : Digraph) (events : List CheckEvent) (skipped : List String)
    (root_of : Dict String)
    → roots_by_node nx g (subjects (sort_by event_leb events)) ≡ some root_of
    → group_failures nx g events skipped
      ≡ some (groups_from nx g root_of (sort_by event_leb events) skipped)
unfolding group_failures
group_failures_found nx g events skipped root_of e = ground arith

-- `group_failures` returns, and its groups are a partition of the failing checks by root, when the
-- lineage is a closed and acyclic graph.
pub group_failures-IsPartition :
    (nx : Networkx) (g : Digraph) (events : List CheckEvent) (skipped : List String)
    → IsClosed g
    → IsAcyclic g
    → (groups : List Group) × (group_failures nx g events skipped ≡ some groups)
      × IsPartition g events groups
group_failures-IsPartition nx g events skipped closed acyclic =
    let failed = subjects (sort_by event_leb events) in
    let (root_of, e, maps) = roots_by_node-MapsToRoots nx g failed closed acyclic in
    (
      groups_from nx g root_of (sort_by event_leb events) skipped,
      group_failures_found nx g events skipped root_of e,
      groups_from-IsPartition nx g events skipped root_of maps,
    )
