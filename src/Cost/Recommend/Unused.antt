-- ===== src/Cost/Recommend/Unused.antt =====
-- What `unused_tables` of src/platform_ops/cost/recommend.py reports of a model and of those built from it.
use data_platform_ops.Prelude.{
  ◌+◌, ◌*◌, false, not, Option, none, some, get, Option-cases, contains-sorted_set, ℕ, String, Bool,
  true, ◌&&◌, ◌||◌, ◌≡◌, inl, inr, refl, sym, ap, ◌∙◌, arith, List, [], ◌∷◌, ◌++◌, map, keep,
  contains, contains-keep, any_of, sort_by, insert_by, leb, eqb, eqb_iff, eq_iff, Bool-cases, Dict,
  ◌==◌,
}
use data_platform_ops.Metadata.Manifest.{Node}
use data_platform_ops.Metadata.Graph.{Digraph, Networkx}
use data_platform_ops.Metadata.Lineage.{downstream}
use data_platform_ops.Cost.Attribution.{ActorType, Owners, by_relation, subject_of, text_or_empty}
use data_platform_ops.Cost.Recommend.{
  Measured, is_dbt, is_build, is_model, written_from, is_consumer, known_tables, seconds_a_day,
  UnusedTable, read_since, written_models, is_unused, unused_table, unused_within, unused_tables,
}

-- The model is reported for the lookback.
abbrev pub reported : ℕ → String → List UnusedTable → Bool
reported days uid tables = any_of (λ t. eqb t.lookback_days days && (t.unique_id == uid)) tables

any_of-append :
    {A : Type 0} (p : A → Bool) (xs ys : List A)
    → any_of p (xs ++ ys) ≡ (any_of p xs || any_of p ys)
any_of-append p [] ys = refl
any_of-append p (x ∷ xs) ys = ground (arith, any_of-append p xs ys)

any_of-or :
    (p q : String → Bool) (xs : List String)
    → any_of (λ x. p x || q x) xs ≡ (any_of p xs || any_of q xs)
any_of-or p q [] = refl
any_of-or p q (x ∷ xs) = ground (arith, any_of-or p q xs)

-- Whether one of the elements is in the list, from either side.
any_of-contains :
    (ds ys : List String) → any_of (λ d. contains d ys) ds ≡ any_of (λ y. contains y ds) ys
any_of-contains [] ys = sym (none_there ys)
  where
    none_there : (ys : List String) → any_of (λ y. contains y []) ys ≡ false
    none_there [] = refl
    none_there (y ∷ ys) = none_there ys
any_of-contains (d ∷ ds) ys = sym (
    any_of-or (λ y. y == d) (λ y. contains y ds) ys
    ∙ ground (arith, one d ys, any_of-contains ds ys))
  where
    one : (d : String) (ys : List String) → any_of (λ y. y == d) ys ≡ contains d ys
    one d [] = refl
    one d (y ∷ ys) = ground (arith, eq_iff y d, eq_iff d y, one d ys)

-- A dashboard or a person.
abbrev pub consumes : ActorType → Bool
consumes ActorType.dashboard = true
consumes ActorType.person = true
consumes _ = false

abbrev pub is_dataset : (String → Bool) → Option String → Bool
is_dataset test none = false
is_dataset test (some id) = test id

-- The query is a consumer's, in the last `days`, and reads a dataset that passes the test.
abbrev pub reads : Owners → ℕ → ℕ → (String → Bool) → Measured → Bool
reads owners window_end days test r =
    (consumes r.query.actor_type && leb window_end (r.started_at + days * 86400))
    && any_of (λ t. is_dataset test (get t (by_relation owners))) r.tables

is_consumer-consumes : (a : ActorType) → is_consumer a ≡ consumes a
unfolding is_consumer
is_consumer-consumes ActorType.dashboard = refl
is_consumer-consumes ActorType.person = refl
is_consumer-consumes ActorType.dbt = refl
is_consumer-consumes ActorType.ingestion = refl
is_consumer-consumes ActorType.maintenance = refl
is_consumer-consumes ActorType.reconcile = refl

any_of-known_tables :
    (test : String → Bool) (relations : Dict String) (ts : List String)
    → any_of test (known_tables relations ts) ≡ any_of (λ t. is_dataset test (get t relations)) ts
unfolding known_tables
any_of-known_tables test relations [] = refl
any_of-known_tables test relations (t ∷ ts) = elim (Option-cases (get t relations)) [
  | inl e ↦ rw (e, known_tables) (any_of-known_tables test relations ts)
  | inr (id, e) ↦
      rw (e, known_tables) (ap (λ b. test id || b) (any_of-known_tables test relations ts))
]

any_of-read_since :
    (owners : Owners) (window_end days : ℕ) (test : String → Bool) (records : List Measured)
    → any_of test (read_since (by_relation owners) window_end days records)
      ≡ any_of (reads owners window_end days test) records
unfolding read_since
any_of-read_since owners window_end days test [] = refl
any_of-read_since owners window_end days test (r ∷ records) =
    let rest = read_since (by_relation owners) window_end days records in
    let later = any_of-read_since owners window_end days test records in
    elim (Bool-cases
      (is_consumer r.query.actor_type && leb window_end (r.started_at + days * seconds_a_day))) [
        | inl e ↦ rw e (
            ground (
              arith,
              e,
              is_consumer-consumes r.query.actor_type,
              any_of-append_text test (known_tables (by_relation owners) r.tables) rest,
              any_of-known_tables test (by_relation owners) r.tables,
              later,
            ))
        | inr ne ↦ rw ne (ground (arith, ne, is_consumer-consumes r.query.actor_type, later))
      ]
  where
    any_of-append_text :
        (p : String → Bool) (xs ys : List String)
        → any_of p (xs ++ ys) ≡ (any_of p xs || any_of p ys)
    any_of-append_text p [] ys = refl
    any_of-append_text p (x ∷ xs) ys = ground (arith, any_of-append_text p xs ys)

abbrev by_dbt : ActorType → Bool
by_dbt ActorType.dbt = true
by_dbt _ = false

is_dbt-by_dbt : (a : ActorType) → is_dbt a ≡ by_dbt a
unfolding is_dbt
is_dbt-by_dbt ActorType.dbt = refl
is_dbt-by_dbt ActorType.ingestion = refl
is_dbt-by_dbt ActorType.maintenance = refl
is_dbt-by_dbt ActorType.reconcile = refl
is_dbt-by_dbt ActorType.dashboard = refl
is_dbt-by_dbt ActorType.person = refl

abbrev pub is_model_node : Option Node → Bool
is_model_node none = false
is_model_node (some node) = node.resource_type == "model"

-- The query is dbt's, inserts, and its node (for a test, the node that the test is attached to) is this one.
abbrev pub builds : (String → String → Bool) → Owners → String → Measured → Bool
builds fnmatchcase owners model r =
    (by_dbt r.query.actor_type
      && ((r.query_kind == "Insert") && not (text_or_empty r.query.node_id == "")))
    && is_dataset (λ id. id == model) (subject_of fnmatchcase owners r.query.node_id)

contains-written_from :
    (nx : Networkx) (fnmatchcase : String → String → Bool) (owners : Owners) (model : String)
    (records : List Measured)
    → contains model (written_from nx fnmatchcase owners records)
      ≡ any_of (builds fnmatchcase owners model) records
unfolding written_from is_build
contains-written_from nx fnmatchcase owners model [] = refl
contains-written_from nx fnmatchcase owners model (r ∷ records) =
    let dbt_too = is_dbt-by_dbt r.query.actor_type in
    let later = contains-written_from nx fnmatchcase owners model records in
    elim (Bool-cases (is_build r)) [
      | inl e ↦ elim (Option-cases (subject_of fnmatchcase owners r.query.node_id)) [
        | inl gone ↦ rw (e, gone, written_from) (ground (arith, e, dbt_too, later))
        | inr (uid, there) ↦
            rw (e, there, written_from)
              (ground (arith, e, dbt_too, later, eq_iff uid model, eq_iff model uid))
      ]
      | inr ne ↦ rw (ne, written_from) (ground (arith, ne, dbt_too, later))
    ]

contains-written_models :
    (nx : Networkx) (fnmatchcase : String → String → Bool) (owners : Owners) (model : String)
    (records : List Measured)
    → contains model (written_models nx fnmatchcase owners records) ≡ (
        any_of (builds fnmatchcase owners model) records
        && (not (model == "") && is_model_node (get model owners.nodes)))
unfolding written_models is_model
contains-written_models nx fnmatchcase owners model records =
    let found = written_from nx fnmatchcase owners records in
    contains-sorted_set model (keep (is_model owners.nodes) found)
    ∙ contains-keep (is_model owners.nodes) model found
    ∙ elim (Option-cases (get model owners.nodes)) [
      | inl e ↦
          rw (e, is_model)
            (ground (arith, contains-written_from nx fnmatchcase owners model records))
      | inr (node, e) ↦
          rw (e, is_model)
            (ground (arith, contains-written_from nx fnmatchcase owners model records))
    ]

any_of-insert_by :
    (p : ℕ → Bool) (x : ℕ) (xs : List ℕ) → any_of p (insert_by leb x xs) ≡ (p x || any_of p xs)
any_of-insert_by p x [] = refl
any_of-insert_by p x (y ∷ ys) = ground (arith, any_of-insert_by p x ys)

any_of-sort_by : (p : ℕ → Bool) (xs : List ℕ) → any_of p (sort_by leb xs) ≡ any_of p xs
any_of-sort_by p [] = refl
any_of-sort_by p (x ∷ xs) =
    ground (arith, any_of-insert_by p x (sort_by leb xs), any_of-sort_by p xs)

any_of-eqb :
    (n : ℕ) (q : ℕ → Bool) (xs : List ℕ)
    → any_of (λ x. eqb x n && q x) xs ≡ (any_of (λ x. eqb x n) xs && q n)
any_of-eqb n q [] = refl
any_of-eqb n q (x ∷ xs) = elim (Bool-cases (eqb x n)) [
  | inl e ↦
      let same : x ≡ n = ground (arith, eqb_iff x n) in
      let here_too = ap q same in ground (arith, any_of-eqb n q xs)
  | inr ne ↦ ground (arith, any_of-eqb n q xs)
]

module _ (nx : Networkx) (fnmatchcase : String → String → Bool) (monthly : ℕ → ℕ → ℕ)
    (records : List Measured) (owners : Owners) (graph : Digraph) (production : Dict (Dict ℕ))
    (window_end window_days : ℕ) where
  reported-map :
      (days at : ℕ) (uid : String) (ms : List String)
      → reported days uid
          (map (unused_table nx fnmatchcase monthly owners production window_days at) ms)
        ≡ (eqb at days && contains uid ms)
  unfolding unused_table
  reported-map days at uid [] = ground arith
  reported-map days at uid (m ∷ ms) =
      ground (arith, eq_iff m uid, eq_iff uid m, reported-map days at uid ms)

  unused_at : ℕ → String → Bool
  unused_at days uid =
      contains uid (written_models nx fnmatchcase owners records)
      && is_unused nx fnmatchcase graph (read_since (by_relation owners) window_end days records)
          uid

  reported-within :
      (days : ℕ) (uid : String) (lookbacks : List ℕ)
      → reported days uid (
          unused_within nx fnmatchcase monthly records owners graph production window_end
            window_days lookbacks)
        ≡ any_of (λ l. eqb l days && unused_at l uid) lookbacks
  unfolding unused_within unused_at
  reported-within days uid [] = refl
  reported-within days uid (l ∷ lookbacks) =
      let unused : String → Bool =
        is_unused nx fnmatchcase graph (read_since (by_relation owners) window_end l records) in
      let models = written_models nx fnmatchcase owners records in
      ground (
        arith,
        any_of-append (λ t. eqb t.lookback_days days && (t.unique_id == uid))
            (map (unused_table nx fnmatchcase monthly owners production window_days l)
              (keep unused models))
            (unused_within nx fnmatchcase monthly records owners graph production window_end
              window_days lookbacks),
        reported-map days l uid (keep unused models),
        contains-keep unused uid models,
        reported-within days uid lookbacks,
      )

  reported-unused :
      (days : ℕ) (uid : String) (lookbacks : List ℕ)
      → reported days uid (
          unused_tables nx fnmatchcase monthly records owners graph production window_end
            window_days lookbacks)
        ≡ (any_of (λ l. eqb l days) lookbacks && unused_at days uid)
  unfolding unused_tables
  reported-unused days uid lookbacks =
      reported-within days uid (sort_by leb lookbacks)
      ∙ any_of-sort_by (λ l. eqb l days && unused_at l uid) lookbacks
      ∙ any_of-eqb days (λ l. unused_at l uid) lookbacks

-- A dataset is reported unused for a lookback exactly if the lookback was asked for, dbt wrote the dataset in the window
-- and it is a model, and no query of a dashboard or of a person in the last days of the lookback read it or anything
-- downstream of it.
pub unused_tables-exact :
    (nx : Networkx) (fnmatchcase : String → String → Bool) (monthly : ℕ → ℕ → ℕ)
    (records : List Measured) (owners : Owners) (graph : Digraph) (production : Dict (Dict ℕ))
    (window_end window_days : ℕ) (lookbacks : List ℕ) (days : ℕ) (model : String)
    → reported days model (
        unused_tables nx fnmatchcase monthly records owners graph production window_end window_days
          lookbacks)
      ≡ (any_of (λ l. eqb l days) lookbacks
          && ((any_of (builds fnmatchcase owners model) records
                && (not (model == "") && is_model_node (get model owners.nodes)))
              && not (
                  any_of
                    (reads owners window_end days
                      (λ id. (id == model) || contains id (downstream nx graph model)))
                    records)))
unfolding unused_at is_unused
unused_tables-exact nx fnmatchcase monthly records owners graph production window_end window_days
      lookbacks days model =
    let read = read_since (by_relation owners) window_end days records in
    let below = downstream nx graph model in
    ground (
      arith,
      reported-unused nx fnmatchcase monthly records owners graph production window_end window_days
          days model lookbacks,
      contains-written_models nx fnmatchcase owners model records,
      any_of-contains below read,
      any_of-contains (model ∷ []) read,
      any_of-or (λ id. contains id (model ∷ [])) (λ id. contains id below) read,
      any_of-read_since owners window_end days (λ id. (id == model) || contains id below) records,
    )
