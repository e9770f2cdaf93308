-- ===== src/Incidents/Desk/Regroup/Kept.antt =====
-- `_regroup` of src/platform_ops/incidents/desk.py keeps what every write keeps.
use data_platform_ops.Prelude.{
  All-map_of, ℕ, String, Bool, Option, none, some, List, [], ◌∷◌, Dict, values, map, keep, length,
  ◌==◌, not, ◌&&◌, true, false, if◌then◌else◌, ◌≡◌, All, arith,
}
use data_platform_ops.Metadata.Graph.{Networkx}
use data_platform_ops.Incidents.Events.{CheckEvent}
use data_platform_ops.Incidents.Grouping.{Group, group_failures, roots_by_node}
use data_platform_ops.Incidents.Policy.{Moment}
use data_platform_ops.Incidents.Desk.Tables.{
  Incident, NoticeKind, Text, Store, ok, Ensures, ensured, Ensures->>=, Ensures-any, Ensures-if,
  Ensures-when,
}
use data_platform_ops.Incidents.Desk.Context.{Context, healthy}
use data_platform_ops.Incidents.Desk.Writes.{IsKept, ByFiling}
use data_platform_ops.Incidents.Desk.Queue.{queue, queue_for, has_notice}
use data_platform_ops.Incidents.Desk.Assign.{Assigned, resolved_by, was_before, assign}
use data_platform_ops.Incidents.Desk.Assign.Kept.{assign-Kept}
use data_platform_ops.Incidents.Desk.Escalate.Kept.{escalate-Kept}
use data_platform_ops.Incidents.Desk.Regroup.{
  limited, count_checks, shared_rows, contains_seq, incident_of, merge_untaken, file_events,
  Resolved, resolve_one, resolve_all, queue_all, queue_raises, tell, relink, regroup_events,
  regroup, statuses_from, results_of_run,
}

module _ (nx : Networkx) (fnmatchcase : String → String → Bool) (max_open_per_person : ℕ)
    (context : Context) (P : Store → Type 0) {May : Incident → Option ℕ → Option String → Type 0}
    (kept : IsKept nx fnmatchcase max_open_per_person May P) where
  pub merge_untaken-Kept :
      (taken : List ℕ) (assignment : Dict ℕ) (root_of : Dict String) (mine : List Incident)
      (s : Store)
      → P s
      → Ensures P (merge_untaken taken assignment root_of mine s)
  unfolding merge_untaken
  merge_untaken-Kept taken assignment root_of [] s p = ensured s p
  merge_untaken-Kept taken assignment root_of (i ∷ mine) s p =
      Ensures->>=
        (Ensures-if (contains_seq i.seq taken) (ensured s p)
          (Ensures->>= (Ensures-any _) (λ into u. ensured _ (kept.by_merge into i.seq s p))))
        (λ s' q. merge_untaken-Kept taken assignment root_of mine s' q)

  -- What is known of the incidents before a run, for it to write their resolutions.
  abbrev pub MayWrite : String → ℕ → Dict String → Incident → Type 0
  MayWrite run_id at statuses i =
      (healthy i.root context statuses ≡ true → May i (some at) (some run_id))
      × (resolved_by run_id i ≡ true → May i none none)

  resolve_one-Kept :
      (run_id : String) (at : ℕ) (statuses : Dict String) (i : Incident) (state : Resolved)
      → MayWrite run_id at statuses i
      → P (state.store)
      → Ensures (λ r. P (r.store)) (resolve_one context run_id at statuses i state)
  unfolding resolve_one
  resolve_one-Kept run_id at statuses i state may p =
      Ensures-when (healthy i.root context statuses && not (resolved_by run_id i))
        (λ both.
          Ensures->>= (kept.by_resolve i at run_id (state.store) (may.0 (ground (arith, both))) p)
            (λ s q. ensured _ q))
        (Ensures-when (not (healthy i.root context statuses) && resolved_by run_id i)
          (λ both.
            Ensures->>= (kept.by_reopen i (state.store) (may.1 (ground (arith, both))) p)
              (λ s q. ensured _ q))
          (ensured _ p))

  resolve_all-Kept :
      (run_id : String) (at : ℕ) (statuses : Dict String) (taken : List ℕ) (is : List Incident)
      (state : Resolved)
      → All (MayWrite run_id at statuses) is
      → P (state.store)
      → Ensures (λ r. P (r.store)) (resolve_all context run_id at statuses taken is state)
  unfolding resolve_all
  resolve_all-Kept run_id at statuses taken [] state may p = ensured state p
  resolve_all-Kept run_id at statuses taken (i ∷ is) state may p =
      Ensures->>=
        (Ensures-if (contains_seq i.seq taken) (ensured state p)
          (resolve_one-Kept run_id at statuses i state may.0 p))
        (λ next q. resolve_all-Kept run_id at statuses taken is next may.1 q)

  P-if : (b : Bool) {s t : Store} → P s → P t → P (if b then s else t)
  P-if true p q = p
  P-if false p q = q

  queue_for-Kept :
      (o : Option Incident) (seq : ℕ) (kind : NoticeKind) (run_id : String) (at : ℕ) (text : Text)
      (s : Store)
      → P s
      → P (queue_for o seq kind run_id at text s)
  unfolding queue_for
  queue_for-Kept none seq kind run_id at text s p = p
  queue_for-Kept (some i) seq kind run_id at text s p =
      P-if (has_notice seq kind run_id s.notices) p (kept.by_notices _ s p)

  queue-Kept :
      (seq : ℕ) (kind : NoticeKind) (run_id : String) (at : ℕ) (text : Text) (s : Store)
      → P s
      → P (queue seq kind run_id at text s)
  unfolding queue
  queue-Kept seq kind run_id at text s p = queue_for-Kept _ seq kind run_id at text s p

  queue_all-Kept :
      (kind : NoticeKind) (run_id : String) (at : ℕ) (text : ℕ → Text) (seqs : List ℕ) (s : Store)
      → P s
      → P (queue_all kind run_id at text seqs s)
  unfolding queue_all
  queue_all-Kept kind run_id at text [] s p = p
  queue_all-Kept kind run_id at text (seq ∷ seqs) s p =
      queue_all-Kept kind run_id at text seqs _ (queue-Kept seq kind run_id at (text seq) s p)

  queue_raises-Kept :
      (run_id : String) (at : ℕ) (raises : List (ℕ × Text)) (s : Store)
      → P s
      → P (queue_raises run_id at raises s)
  unfolding queue_raises
  queue_raises-Kept run_id at [] s p = p
  queue_raises-Kept run_id at ((seq, text) ∷ raises) s p =
      queue_raises-Kept run_id at raises _ (queue-Kept seq NoticeKind.escalation run_id at text s p)

  tell-Kept :
      (run_id : String) (at failing : ℕ) (assigned : Assigned) (checks : List (ℕ × ℕ))
      (resolved : Resolved) (escalated : Store × List (ℕ × Text))
      → P (escalated.0)
      → P ((tell run_id at failing assigned checks resolved escalated).store)
  unfolding tell
  tell-Kept run_id at failing assigned checks resolved escalated p =
      queue_raises-Kept run_id at (escalated.1) _ (
        queue_all-Kept _ run_id at _ _ _
          (queue_all-Kept _ run_id at _ _ _ (queue_all-Kept _ run_id at _ _ _ p)))

  -- Three steps decide what holds once the events are filed; the rest keeps it.
  pub regroup_events-Filed :
      (R : Assigned → Type 0) (S : Assigned → Store → Type 0) (run_id : String) (at : Moment)
      (events : List CheckEvent) (statuses : Dict String) (skipped : List String)
      (before : List Incident) (s : Store)
      → All (MayWrite run_id at.instant statuses) before
      → ((groups : List Group)
          → Ensures R (
              assign nx fnmatchcase max_open_per_person context run_id at statuses before groups s))
      → ((root_of : Dict String) (a : Assigned)
          → R a
          → Ensures (S a) (merge_untaken (values a.assignment) a.assignment root_of a.mine a.store))
      → ((root_of : Dict String) (a : Assigned) (merged : Store)
          → ok root_of ≡ limited (roots_by_node nx context.graph (map (λ e. e.subject) events))
          → S a merged
          → Ensures P (file_events root_of a.assignment events merged))
      → Ensures
          (λ r. P (r.store))
          (regroup_events nx fnmatchcase max_open_per_person context run_id at events statuses
            skipped before s)
  unfolding regroup_events relink
  regroup_events-Filed R S run_id at events statuses skipped before s may assigns merges files =
      Ensures->>= (Ensures-any (limited (group_failures nx context.graph events skipped)))
        (λ groups u.
          Ensures->>=
            (Ensures-any (limited (roots_by_node nx context.graph (map (λ e. e.subject) events))))
            (λ root_of rooted. Ensures->>= (assigns groups) (λ assigned p1.
              Ensures->>= (merges root_of assigned p1) (λ merged p2.
                Ensures->>= (files root_of assigned merged rooted p2) (λ filed p3.
                  Ensures->>= (Ensures-any (count_checks root_of assigned.assignment events []))
                    (λ checks u.
                      Ensures->>=
                        (Ensures-any (
                          shared_rows run_id assigned.assignment groups
                            (keep (λ r. not (r.run_id == run_id)) filed.shared_nodes)))
                        (λ shared u.
                          Ensures->>=
                            (resolve_all-Kept run_id at.instant statuses
                              (values assigned.assignment) before
                              (record {
                                store = relink run_id at.instant checks shared filed;
                                seqs = [];
                              })
                              may (kept.by_links _ shared filed p3))
                            (λ resolved p4.
                              Ensures->>=
                                (escalate-Kept nx fnmatchcase max_open_per_person context run_id at
                                  P kept (resolved.store) p4)
                                (λ escalated p5. ensured _ (
                                  tell-Kept run_id at.instant (length events) assigned checks
                                    resolved escalated p5))))))))))

  module _ (filing : ByFiling P) where
    file_events-Kept :
        (root_of : Dict String) (assignment : Dict ℕ) (events : List CheckEvent) (s : Store)
        → P s
        → Ensures P (file_events root_of assignment events s)
    unfolding file_events
    file_events-Kept root_of assignment [] s p = ensured s p
    file_events-Kept root_of assignment (event ∷ events) s p =
        Ensures->>= {m = incident_of root_of assignment event} (Ensures-any _)
          (λ seq u. file_events-Kept root_of assignment events _ (filing.by_filing _ s p))

    pub regroup-Kept :
        (run_id : String) (at : Moment) (s : Store)
        → All
            (MayWrite run_id at.instant (statuses_from (results_of_run run_id s.results) []))
            (keep (was_before run_id at.instant) s.incidents)
        → P s
        → Ensures
            (λ r. P (r.store))
            (regroup nx fnmatchcase max_open_per_person context run_id at s)
    unfolding regroup
    regroup-Kept run_id at s may p =
        regroup_events-Filed (λ a. P (a.store)) (λ a m. P m) run_id at _ _ _ _ s may
          (λ groups.
            assign-Kept nx fnmatchcase max_open_per_person context run_id at _ _ P kept
              (All-map_of _ _ _ (λ i m. m.1) may) groups s p)
          (λ root_of a q.
            merge_untaken-Kept (values a.assignment) a.assignment root_of a.mine a.store q)
          (λ root_of a m u q. file_events-Kept root_of a.assignment _ m q)
