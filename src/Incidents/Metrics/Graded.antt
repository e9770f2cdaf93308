-- ===== src/Incidents/Metrics/Graded.antt =====
-- What the grades of src/platform_ops/incidents/metrics.py mean.
use data_platform_ops.Prelude.{
  subst, sym, if◌then◌else◌, ◌&&◌, ◌≤◌, eq_iff, put, Option, none, some, ◌==◌, ℕ, suc, ◌+◌, ◌<◌,
  String, Bool, true, false, not, ◌||◌, ◌≡◌, inl, inr, refl, ap, ◌∙◌, arith, List, [], ◌∷◌, map,
  keep, all_of, any_of, All, All-map_of, length, has_num, has_num-append, sum_of, sum_of-sort_by,
  eqb, Bool-cases, Dict, get, or_default, str_leb,
}
use data_platform_ops.Metadata.Manifest.{Node}
use data_platform_ops.Metadata.Graph.{Digraph, Networkx}
use data_platform_ops.Metadata.Registry.{Registry, DatasetRule, resolve}
use data_platform_ops.Incidents.Events.{CheckEvent}
use data_platform_ops.Incidents.Desk.Tables.{Incident, Notice, NoticeKind, same_kind}
use data_platform_ops.Incidents.Policy.{dataset_of}
use data_platform_ops.Incidents.Desk.Writes.Numbers.{IsNumbered, end, then_next}
use data_platform_ops.Incidents.Metrics.{
  FaultTruth, History, numbers_of, is_empty, one_incident_per_fault, matched_ids, caused_by,
  outcome_of, compute, count_one, alerts_by_owner, owner_of_rule, pages_by_recipient,
}

-- No number of the list is `n` where all are above it.
has_num-above :
    (n : ℕ) (m : ℕ) (p : Incident → Bool) (is : List Incident)
    → IsNumbered n is
    → m < suc n
    → has_num m (numbers_of (keep p is)) ≡ false
unfolding numbers_of
has_num-above n m p [] end h = refl
has_num-above n m p (i ∷ is) (then_next above rest) h =
    let later = has_num-above i.seq m p is rest (omega (arith, h, above)) in
    ground (arith, above, h)

All-above : (n : ℕ) (is : List Incident) → IsNumbered n is → All (λ j. n < j.seq) is
All-above n [] end = tt
All-above n (i ∷ is) (then_next above rest) = (
  above,
  All-map_of (λ j. i.seq < j.seq) (λ j. n < j.seq) is (λ j h. omega (arith, h, above))
      (All-above i.seq is rest),
)

All-zip :
    (P Q R : Incident → Type 0) (is : List Incident)
    → ((i : Incident) → P i → Q i → R i)
    → All P is
    → All Q is
    → All R is
All-zip P Q R [] h p q = tt
All-zip P Q R (i ∷ is) h p q = (h i p.0 q.0, All-zip P Q R is h p.1 q.1)

All-each :
    (P : FaultTruth → Incident → Type 0) (is : List Incident)
    → ((t : FaultTruth) → All (P t) is)
    → All (λ i. (t : FaultTruth) → P t i) is
All-each P [] h = tt
All-each P (i ∷ is) h = (λ t. (h t).0, All-each P is (λ t. (h t).1))

-- An incident whose number is among those that a test keeps passes the test.
kept_numbers :
    (n : ℕ) (p : Incident → Bool) (is : List Incident)
    → IsNumbered n is
    → All (λ i. (not (has_num i.seq (numbers_of (keep p is))) || p i) ≡ true) is
unfolding numbers_of
kept_numbers n p [] end = tt
kept_numbers n p (i ∷ is) (then_next above rest) =
    let fresh = has_num-above i.seq i.seq p is rest (omega arith) in
    (
      ground (arith, fresh),
      All-zip (λ j. i.seq < j.seq)
          (λ j. (not (has_num j.seq (numbers_of (keep p is))) || p j) ≡ true)
          (λ j. (not (has_num j.seq (numbers_of (keep p (i ∷ is)))) || p j) ≡ true) is
          (λ j lt h. ground (arith, lt, h)) (All-above i.seq is rest)
          (kept_numbers i.seq p is rest),
    )

empty_numbers :
    (q : Incident → Bool) (is : List Incident)
    → is_empty (numbers_of (keep q is)) ≡ true
    → All (λ i. q i ≡ false) is
unfolding is_empty numbers_of
empty_numbers q [] h = tt
empty_numbers q (i ∷ is) h = elim (Bool-cases (q i)) [
  | inl e ↦ ground arith
  | inr ne ↦ (ne, empty_numbers q is (ground arith))
]

length-numbers_of : (is : List Incident) → length (numbers_of is) ≡ length is
unfolding numbers_of
length-numbers_of [] = refl
length-numbers_of (i ∷ is) = ap suc (length-numbers_of is)

module _ (nx : Networkx) (fnmatchcase : String → String → Bool) (graph : Digraph) (last : ℕ)
    (is : List Incident) where
  each_one :
      (ts : List FaultTruth)
      → all_of
          (λ f. eqb (length f.incident_ids) 1)
          (map (outcome_of nx fnmatchcase graph last is) ts)
        ≡ true
      → All (λ t. length (keep (caused_by nx fnmatchcase graph last t) is) ≡ 1) ts
  unfolding outcome_of
  each_one [] h = tt
  each_one (t ∷ ts) h =
      let count = length-numbers_of (keep (caused_by nx fnmatchcase graph last t) is) in
      (ground (arith, count), each_one ts (ground arith))

  matched_by :
      (i : Incident) (ts : List FaultTruth)
      → ((t : FaultTruth)
          → (not (has_num i.seq (numbers_of (keep (caused_by nx fnmatchcase graph last t) is)))
              || caused_by nx fnmatchcase graph last t i)
            ≡ true)
      → has_num i.seq (matched_ids (map (outcome_of nx fnmatchcase graph last is) ts)) ≡ true
      → any_of (λ t. caused_by nx fnmatchcase graph last t i) ts ≡ true
  unfolding matched_ids outcome_of
  matched_by i [] each h = ground arith
  matched_by i (t ∷ ts) each h =
      let here_ = each t in
      let split =
        has_num-append i.seq (numbers_of (keep (caused_by nx fnmatchcase graph last t) is))
          (matched_ids (map (outcome_of nx fnmatchcase graph last is) ts)) in
      ground (arith, split, here_, matched_by i ts each)

-- Where the incidents' numbers ascend, as the desk gives them, and the metrics say that there is one incident for each
-- fault, every fault caused exactly one of the incidents and every incident was caused by some fault.
pub compute-one_per_fault :
    (nx : Networkx) (fnmatchcase : String → String → Bool) (history : History)
    (truths : List FaultTruth) (graph : Digraph) (nodes : Dict Node) (registry : Registry)
    (last : ℕ)
    → IsNumbered 0 history.incidents
    → one_incident_per_fault (compute nx fnmatchcase history truths graph nodes registry last)
      ≡ true
    → All (λ t. length (keep (caused_by nx fnmatchcase graph last t) history.incidents) ≡ 1) truths
      × All
          (λ i. any_of (λ t. caused_by nx fnmatchcase graph last t i) truths ≡ true)
          history.incidents
unfolding compute one_incident_per_fault
compute-one_per_fault nx fnmatchcase history truths graph nodes registry last numbered h =
    let is = history.incidents in
    let faults = map (outcome_of nx fnmatchcase graph last is) truths in
    let matched = matched_ids faults in
    (
      each_one nx fnmatchcase graph last is truths (ground arith),
      All-zip (λ i. not (has_num i.seq matched) ≡ false) _ _ is
          (λ i here_ each. matched_by nx fnmatchcase graph last is i truths each (ground arith))
          (empty_numbers (λ i. not (has_num i.seq matched)) is (ground arith))
          (All-each
            (λ t i.
              (not (has_num i.seq (numbers_of (keep (caused_by nx fnmatchcase graph last t) is)))
                || caused_by nx fnmatchcase graph last t i)
              ≡ true)
            is (λ t. kept_numbers 0 (caused_by nx fnmatchcase graph last t) is numbered)),
    )

-- Who answers for a dataset that this rule covers.
abbrev pub answers : Option DatasetRule → String
answers none = "unowned"
answers (some rule) = rule.owner

-- The count of a name.
abbrev pub amount : String → Dict ℕ → ℕ
amount name counter = sum_of (λ c. if c.0 == name then c.1 else 0) counter

-- How often a name is listed.
abbrev pub entries : String → Dict ℕ → ℕ
entries name counter = sum_of (λ c. if c.0 == name then 1 else 0) counter

amount-put :
    (name key : String) (v : ℕ) (counter : Dict ℕ)
    → amount name (put key v counter) + (if key == name then or_default 0 (get key counter) else 0)
      ≡ amount name counter + (if key == name then v else 0)
unfolding put get
amount-put name key v [] = ground arith
amount-put name key v ((j, w) ∷ counter) =
    ground (arith, eq_iff j key, eq_iff key name, eq_iff j name, amount-put name key v counter)

entries-put_other :
    (name key : String) (v : ℕ) (counter : Dict ℕ)
    → (key == name) ≡ false
    → entries name (put key v counter) ≡ entries name counter
unfolding put
entries-put_other name key v [] h = ground arith
entries-put_other name key v ((j, w) ∷ counter) h =
    ground (arith, entries-put_other name key v counter h)

entries-put :
    (name key : String) (v : ℕ) (counter : Dict ℕ)
    → entries name counter ≤ 1
    → entries name (put key v counter) ≤ 1
unfolding put
entries-put name key v [] h = ground arith
entries-put name key v ((j, w) ∷ counter) h = elim (Bool-cases (key == name)) [
  | inl e ↦
      let here_ = entries-put name key v counter (ground (arith, h)) in
      ground (arith, eq_iff j key, eq_iff key name, eq_iff j name)
  | inr ne ↦ rw (entries-put_other name key v ((j, w) ∷ counter) ne) h
]

amount-count_one :
    (name key : String) (counter : Dict ℕ)
    → amount name (count_one key counter) ≡ amount name counter + (if key == name then 1 else 0)
unfolding count_one
amount-count_one name key counter =
    ground (arith, amount-put name key (or_default 0 (get key counter) + 1) counter)

entries-count_one :
    (name key : String) (counter : Dict ℕ)
    → entries name counter ≤ 1
    → entries name (count_one key counter) ≤ 1
unfolding count_one
entries-count_one name key counter h = entries-put name key _ counter h

module _ (nx : Networkx) (fnmatchcase : String → String → Bool) (nodes : Dict Node)
    (registry : Registry) where
  -- The check's alert would have gone to this name.
  abbrev pub goes_to : String → CheckEvent → Bool
  goes_to name e = answers (resolve fnmatchcase registry (dataset_of e.subject nodes)).rule == name

  owner_of_rule-answers : (rule : Option DatasetRule) → owner_of_rule rule ≡ answers rule
  unfolding owner_of_rule
  owner_of_rule-answers none = refl
  owner_of_rule-answers (some rule) = refl

  alerts_by_owner-counts :
      (name : String) (events : List CheckEvent) (counter : Dict ℕ)
      → entries name counter ≤ 1
      → (amount name (alerts_by_owner nx fnmatchcase nodes registry events counter)
          ≡ length (keep (goes_to name) events) + amount name counter)
        × (entries name (alerts_by_owner nx fnmatchcase nodes registry events counter) ≤ 1)
  unfolding alerts_by_owner
  alerts_by_owner-counts name [] counter h = (omega arith, h)
  alerts_by_owner-counts name (e ∷ events) counter h =
      let rule = (resolve fnmatchcase registry (dataset_of e.subject nodes)).rule in
      let owner = owner_of_rule rule in
      let rest =
        alerts_by_owner-counts name events (count_one owner counter)
          (entries-count_one name owner counter h) in
      let same = ap (λ o. o == name) (owner_of_rule-answers rule) in
      (ground (arith, rest.0, same, amount-count_one name owner counter), rest.1)

pages_by_recipient-counts :
    (name : String) (notices : List Notice) (counter : Dict ℕ)
    → entries name counter ≤ 1
    → (amount name (pages_by_recipient notices counter)
        ≡ length (keep (λ n. same_kind n.kind NoticeKind.page && (n.recipient == name)) notices)
          + amount name counter)
      × (entries name (pages_by_recipient notices counter) ≤ 1)
unfolding pages_by_recipient
pages_by_recipient-counts name [] counter h = (omega arith, h)
pages_by_recipient-counts name (n ∷ notices) counter h =
    elim (Bool-cases (same_kind n.kind NoticeKind.page)) [
      | inl e ↦ rw e (
          let rest =
            pages_by_recipient-counts name notices (count_one n.recipient counter)
              (entries-count_one name n.recipient counter h) in
          (ground (arith, rest.0, amount-count_one name n.recipient counter), rest.1))
      | inr ne ↦ rw ne (pages_by_recipient-counts name notices counter h)
    ]

-- For every name: the alerts before are as many as the failing checks whose dataset the registry gives to that name, those
-- of no rule going to the name "unowned"; the alerts after are as many as the pages sent to that name; and each of the two
-- lists a name once at most.
pub compute-alerts :
    (nx : Networkx) (fnmatchcase : String → String → Bool) (history : History)
    (truths : List FaultTruth) (graph : Digraph) (nodes : Dict Node) (registry : Registry)
    (last : ℕ) (name : String)
    → (amount name (compute nx fnmatchcase history truths graph nodes registry last).alerts_before
        ≡ length (keep (goes_to nx fnmatchcase nodes registry name) history.events))
      × (amount name (compute nx fnmatchcase history truths graph nodes registry last).alerts_after
          ≡ length (
              keep
                (λ n. same_kind n.kind NoticeKind.page && (n.recipient == name))
                history.notifications))
      × (entries name
            (compute nx fnmatchcase history truths graph nodes registry last).alerts_before
          ≤ 1)
      × (entries name (compute nx fnmatchcase history truths graph nodes registry last).alerts_after
          ≤ 1)
unfolding compute
compute-alerts nx fnmatchcase history truths graph nodes registry last name =
    let before = alerts_by_owner nx fnmatchcase nodes registry history.events [] in
    let after = pages_by_recipient history.notifications [] in
    let by_owner =
      alerts_by_owner-counts nx fnmatchcase nodes registry name history.events [] (omega arith) in
    let by_person = pages_by_recipient-counts name history.notifications [] (omega arith) in
    let le = λ (a b : String × ℕ). str_leb a.0 b.0 in
    let count = λ (c : String × ℕ). if c.0 == name then c.1 else 0 in
    let one = λ (c : String × ℕ). if c.0 == name then 1 else 0 in
    (
      sum_of-sort_by count le before ∙ omega (arith, by_owner.0),
      sum_of-sort_by count le after ∙ omega (arith, by_person.0),
      subst (λ k. k ≤ 1) (sym (sum_of-sort_by one le before)) by_owner.1,
      subst (λ k. k ≤ 1) (sym (sum_of-sort_by one le after)) by_person.1,
    )
