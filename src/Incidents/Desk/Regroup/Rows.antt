-- ===== src/Incidents/Desk/Regroup/Rows.antt =====
-- Filing the check events of a run, row by row: `_regroup` of src/platform_ops/incidents/desk.py.
use data_platform_ops.Prelude.{
  ℕ, String, Bool, true, false, ◌&&◌, ◌≡◌, ◌⊎◌, inl, inr, refl, sym, ap, ◌∙◌, subst, arith, Option,
  none, some, not, ◌||◌, eq→path, all_of, List, [], ◌∷◌, All, All-map_of, any_of, Dict, get, values,
  ◌==◌, Bool-cases, Option-cases, if◌then◌else◌,
}
use data_platform_ops.Incidents.Events.{CheckEvent}
use data_platform_ops.Incidents.Desk.Tables.{
  Incident, EventRow, Store, ok, Ensures, ensured, Ensures->>=, Ensures-any,
}
use data_platform_ops.Incidents.Desk.Writes.Known.{numbered, Known}
use data_platform_ops.Incidents.Desk.Regroup.{incident_of, found, file_event, file_events}

-- The row of the event, by the table's key.
abbrev pub row_of : EventRow → CheckEvent → Bool
row_of row e = (row.event.run_id == e.run_id) && (row.event.check_id == e.check_id)

-- An event with the row's key is about the row's subject.
abbrev pub agrees : EventRow → CheckEvent → Bool
agrees row e = not (row_of row e) || (e.subject == row.event.subject)

-- A row of another run, or one that is filed: its own subject has a root, the root is assigned an incident, that is the
-- incident under which the row is filed, and it is in the store.
pub data IsFiled (run_id : String) (root_of : Dict String) (assignment : Dict ℕ)
    (is : List Incident) (row : EventRow) : Type 0 where
  other_run : (row.event.run_id == run_id) ≡ false → IsFiled run_id root_of assignment is row
  filed :
      (root : String) (n : ℕ)
      → get row.event.subject root_of ≡ some root
      → get root assignment ≡ some n
      → row.incident ≡ some n
      → numbered n is ≡ true
      → IsFiled run_id root_of assignment is row

get-Known :
    (is : List Incident) (k : String) (m : Dict ℕ) (n : ℕ)
    → Known is (values m)
    → get k m ≡ some n
    → numbered n is ≡ true
unfolding get
get-Known is k [] n all h = ground arith
get-Known is k ((j, v) ∷ m) n all h = elim (Bool-cases (j == k)) [
  | inl e ↦ let same : v ≡ n = ground arith in subst (λ x. numbered x is ≡ true) same all.0
  | inr ne ↦ get-Known is k m n all.1 (ground arith)
]

found-some : {A : Type 0} (o : Option A) (a : A) → found o ≡ ok a → o ≡ some a
unfolding found
found-some none a h = cc
found-some (some b) a h = cc

module _ (run_id : String) (root_of : Dict String) (assignment : Dict ℕ) (is : List Incident)
    (known : Known is (values assignment)) where
  -- The row filed under the incident of an event about its subject.
  incident_of-IsFiled :
      (e : CheckEvent) (n : ℕ) (row : EventRow)
      → (e.subject == row.event.subject) ≡ true
      → incident_of root_of assignment e ≡ ok n
      → IsFiled run_id root_of assignment is (record row { incident = some n })
  unfolding incident_of
  incident_of-IsFiled e n row same h = elim (Option-cases (get e.subject root_of)) [
    | inl none_there ↦ ground arith
    | inr (root, there) ↦
        let given : get root assignment ≡ some n = found-some _ n (ground arith) in
        let own = ap (λ x. get x root_of) (eq→path e.subject row.event.subject same) in
        filed root n (sym own ∙ there) given refl (get-Known is root assignment n known given)
  ]

  -- The events agree with the row, and one of them is still to file it, or it is filed.
  unfoldable pub Pending : List CheckEvent → EventRow → Type 0
  Pending events row =
      (all_of (agrees row) events ≡ true)
      × ((any_of (row_of row) events ≡ true) ⊎ IsFiled run_id root_of assignment is row)

  file_one :
      (e : CheckEvent) (n : ℕ) (events : List CheckEvent) (row : EventRow) (b : Bool)
      → row_of row e ≡ b
      → incident_of root_of assignment e ≡ ok n
      → Pending (e ∷ events) row
      → Pending events (if b then record row { incident = some n } else row)
  unfolding Pending
  file_one e n events row true m h p =
      (ground (arith, p.0), inr (incident_of-IsFiled e n row (ground (arith, p.0, m)) h))
  file_one e n events row false m h (a, inl later) = (ground (arith, a), inl (ground arith))
  file_one e n events row false m h (a, inr done) = (ground (arith, a), inr done)

  file_event-Pending :
      (e : CheckEvent) (n : ℕ) (events : List CheckEvent) (rows : List EventRow)
      → incident_of root_of assignment e ≡ ok n
      → All (Pending (e ∷ events)) rows
      → All (Pending events) (file_event e n rows)
  unfolding file_event
  file_event-Pending e n events [] h all = tt
  file_event-Pending e n events (row ∷ rows) h all =
      (file_one e n events row _ refl h all.0, file_event-Pending e n events rows h all.1)

  Pending-nil :
      (rows : List EventRow)
      → All (Pending []) rows
      → All (IsFiled run_id root_of assignment is) rows
  unfolding Pending
  Pending-nil rows all =
      All-map_of (Pending []) (IsFiled run_id root_of assignment is) rows
        (λ row p. elim p.1 [ inl never ↦ ground arith | inr done ↦ done ]) all

  pub file_events-IsFiled :
      (events : List CheckEvent) (s : Store)
      → s.incidents ≡ is
      → All (Pending events) s.check_events
      → Ensures
          (λ s'. (s'.incidents ≡ is) × All (IsFiled run_id root_of assignment is) s'.check_events)
          (file_events root_of assignment events s)
  unfolding file_events
  file_events-IsFiled [] s same all = ensured s (same, Pending-nil s.check_events all)
  file_events-IsFiled (e ∷ events) s same all =
      Ensures->>= {m = incident_of root_of assignment e}
        (Ensures-any (incident_of root_of assignment e))
        (λ n h.
          file_events-IsFiled events _ same
            (file_event-Pending e n events s.check_events (sym h) all))
