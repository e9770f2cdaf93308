-- ===== src/Incidents/Grouping/Roots.antt =====
-- `roots_by_node` of src/platform_ops/incidents/grouping.py: every failed node is mapped to the root
-- that the nearest failed ancestors lead to.
use mathlib.Core.Bool.{false≢true}
use data_platform_ops.Prelude.{
  ℕ, zero, suc, ◌+◌, ◌≤◌, ◌<◌, String, ◌≡◌, refl, sym, ap, ◌∙◌, subst, inl, inr, true, false, none,
  some, List, [], ◌∷◌, contains, length, keep, ltb, ◌==◌, arith, Bool-cases, Option-cases, eq_iff,
  eq→path, eq_self, Dict, get, put, get-put, sorted_set, contains-sorted_set,
}
use data_platform_ops.Metadata.Graph.{Digraph, Networkx, Steps, here, up, Edge, IsClosed, has_node}
use data_platform_ops.Metadata.Lineage.Nearest.{
  IsNearest, NearestOr, nearest_failed_ancestor-NearestOr,
}
use data_platform_ops.Incidents.Grouping.{parent_of, resolve, resolve_all, roots_by_node}

-- dbt's lineage has no cycle: some rank grows along every edge.
pub record IsAcyclic (g : Digraph) : Type 0 where
  pub rank : String → ℕ
  pub grows : (p c : String) → Edge g p c → rank p < rank c

-- `r` failed, lies above `n` (or is `n`), and nothing above it failed.
pub record IsRoot (g : Digraph) (failed : List String) (n r : String) : Type 0 where
  pub is_failed : contains r failed ≡ true
  pub distance : ℕ
  pub path : Steps g n distance r
  pub top : (j : ℕ) (f : String) → Steps g r j f → contains f failed ≡ true → f ≡ r

pub Steps-append :
    (g : Digraph) (a b : String) {k : ℕ}
    → Steps g a k b
    → (c : String) {j : ℕ} → Steps g b j c
    → (m : ℕ) × Steps g a m c
Steps-append g a b {k} s c here = (k, s)
Steps-append g a b s c (up {c = d} t e) = let (m, st) = Steps-append g a b s d t in (suc m, up st e)

Steps-zero : (g : Digraph) (n p : String) → Steps g n zero p → p ≡ n
Steps-zero g n p here = refl

Steps-rank :
    (g : Digraph) (acyclic : IsAcyclic g) (n p : String) {k : ℕ}
    → Steps g n k p
    → acyclic.rank p + k ≤ acyclic.rank n
Steps-rank g acyclic n p here = omega arith
Steps-rank g acyclic n p (up {c = c} s e) =
    omega (arith, Steps-rank g acyclic n c s, acyclic.grows p c e)

Steps-outside :
    (g : Digraph) (closed : IsClosed g) (n p : String) {k : ℕ}
    → has_node g n ≡ false
    → Steps g n k p
    → p ≡ n
Steps-outside g closed n p out here = refl
Steps-outside g closed n p out (up {c = c} s e) =
    let same = Steps-outside g closed n c out s in
    let inside = subst (λ x. has_node g x ≡ true) same (closed.child p c e) in
    absurd (false≢true (ground arith))

module _ (nx : Networkx) (g : Digraph) (closed : IsClosed g) (acyclic : IsAcyclic g)
    (failed : List String) where
  parent-NearestOr : (n : String) → NearestOr g n failed (parent_of nx g failed n)
  unfolding parent_of
  parent-NearestOr n = elim (Bool-cases (has_node g n)) [
    | inl inside ↦ rw inside (nearest_failed_ancestor-NearestOr nx g n failed closed inside)
    | inr outside ↦ rw outside (λ j f s fails. Steps-outside g closed n f outside s)
  ]

  -- How many failed nodes rank below a node: it bounds the recursion of `resolve`.
  abbrev below : List String → String → ℕ
  below nodes n = length (keep (λ f. ltb (acyclic.rank f) (acyclic.rank n)) nodes)

  below-le :
      (nodes : List String) (p n : String)
      → acyclic.rank p < acyclic.rank n
      → below nodes p ≤ below nodes n
  below-le [] p n h = omega arith
  below-le (f ∷ nodes) p n h = ground (arith, below-le nodes p n h)

  below-lt :
      (nodes : List String) (p n : String)
      → acyclic.rank p < acyclic.rank n
      → contains p nodes ≡ true
      → below nodes p < below nodes n
  below-lt [] p n h m = absurd (false≢true m)
  below-lt (f ∷ nodes) p n h m = elim (Bool-cases (p == f)) [
    | inl e ↦ let same = ap acyclic.rank (eq→path p f e) in ground (arith, below-le nodes p n h)
    | inr ne ↦
        let rest : contains p nodes ≡ true = ground arith in
        ground (arith, below-lt nodes p n h rest)
  ]

  below-le-length : (nodes : List String) (n : String) → below nodes n ≤ length nodes
  below-le-length [] n = omega arith
  below-le-length (f ∷ nodes) n = ground (arith, below-le-length nodes n)

  abbrev Root : String → String → Type 0
  Root n r = IsRoot g failed n r

  Root-self : (n : String) → contains n failed ≡ true → parent_of nx g failed n ≡ none → Root n n
  Root-self n m e = record {
    is_failed = m;
    distance = zero;
    path = here;
    top = subst (NearestOr g n failed) e (parent-NearestOr n);
  }

  parent-IsNearest : (n p : String) → parent_of nx g failed n ≡ some p → IsNearest g n failed p
  parent-IsNearest n p e = subst (NearestOr g n failed) e (parent-NearestOr n)

  parent-rank : (n p : String) → IsNearest g n failed p → acyclic.rank p < acyclic.rank n
  parent-rank n p near = go near.distance near.path
    where
      go : (k : ℕ) → Steps g n k p → acyclic.rank p < acyclic.rank n
      go zero s = absurd (near.is_other (Steps-zero g n p s))
      go (suc k) s = omega (arith, Steps-rank g acyclic n p s)

  Root-above : (n p r : String) → IsNearest g n failed p → Root p r → Root n r
  Root-above n p r near root =
      let (m, s) = Steps-append g n p near.path r root.path in
      record { is_failed = root.is_failed; distance = m; path = s; top = root.top }

  -- Every entry of the memo is right.
  abbrev IsSound : Dict String → Type 0
  IsSound root_of = (n r : String) → get n root_of ≡ some r → (contains n failed ≡ true) × Root n r

  IsSound-put :
      (root_of : Dict String) (n r : String)
      → IsSound root_of
      → contains n failed ≡ true
      → Root n r
      → IsSound (put n r root_of)
  IsSound-put root_of n r sound m root j s e = elim (Bool-cases (n == j)) [
    | inl same ↦
        let n≡j = eq→path n j same in
        let found : r ≡ s = ground (arith, get-put n j r root_of) in
        (
          subst (λ x. contains x failed ≡ true) n≡j m,
          subst (λ x. Root j x) found (subst (λ x. Root x r) n≡j root),
        )
    | inr other ↦ sound j s (ground (arith, get-put n j r root_of))
  ]

  -- What a call of `resolve` leaves: the root, a sound memo with every older entry.
  record Resolved (n : String) (before : Dict String) (r : String) (after : Dict String)
      : Type 0 where
    root : Root n r
    sound : IsSound after
    entry : get n after ≡ some r
    kept : (j s : String) → get j before ≡ some s → get j after ≡ some s

  resolve_known :
      (fuel : ℕ) (n r : String) (m : Dict String)
      → get n m ≡ some r
      → resolve nx g failed (suc fuel) n m ≡ some (r, m)
  unfolding resolve
  resolve_known fuel n r m e = ground arith

  resolve_top :
      (fuel : ℕ) (n : String) (m : Dict String)
      → get n m ≡ none
      → parent_of nx g failed n ≡ none
      → resolve nx g failed (suc fuel) n m ≡ some (n, put n n m)
  unfolding resolve
  resolve_top fuel n m e top = ground arith

  resolve_above :
      (fuel : ℕ) (n p r : String) (m found : Dict String)
      → get n m ≡ none
      → parent_of nx g failed n ≡ some p
      → resolve nx g failed fuel p m ≡ some (r, found)
      → resolve nx g failed (suc fuel) n m ≡ some (r, put n r found)
  unfolding resolve
  resolve_above fuel n p r m found e above rest = ground arith

  resolve-Resolved :
      (fuel : ℕ) (n : String) (before : Dict String)
      → contains n failed ≡ true
      → below failed n < fuel
      → IsSound before
      → (r : String) × (after : Dict String) × (resolve nx g failed fuel n before ≡ some (r, after))
        × Resolved n before r after
  resolve-Resolved zero n before m h sound = absurd (omega arith)
  resolve-Resolved (suc fuel) n before m h sound = elim (Option-cases (get n before)) [
    | inr (r, e) ↦ (
      r,
      before,
      resolve_known fuel n r before e,
      record { root = (sound n r e).1; sound = sound; entry = e; kept = λ j s k. k },
    )
    | inl e ↦ elim (Option-cases (parent_of nx g failed n)) [
      | inl top ↦
          let root = Root-self n m top in
          (
            n,
            put n n before,
            resolve_top fuel n before e top,
            record {
              root = root;
              sound = IsSound-put before n n sound m root;
              entry = rw get-put (ground (arith, eq_self n));
              kept = λ j s k. ground (arith, get-put n j n before, eq_iff n j);
            },
          )
      | inr (p, above) ↦
          let near = parent-IsNearest n p above in
          let lt = below-lt failed p n (parent-rank n p near) near.is_failed in
          let (r, found, e', res) =
            resolve-Resolved fuel p before near.is_failed (omega (arith, lt)) sound in
          let root = Root-above n p r near res.root in
          (
            r,
            put n r found,
            resolve_above fuel n p r before found e above e',
            record {
              root = root;
              sound = IsSound-put found n r res.sound m root;
              entry = rw get-put (ground (arith, eq_self n));
              kept = λ j s k. ground (arith, get-put n j r found, eq_iff n j, res.kept j s k);
            },
          )
    ]
  ]

  -- The whole dict: sound, and with an entry for every node of the list.
  record Complete (nodes : List String) (before after : Dict String) : Type 0 where
    sound : IsSound after
    entries : (n : String) → contains n nodes ≡ true → (r : String) × (get n after ≡ some r)
    kept : (j s : String) → get j before ≡ some s → get j after ≡ some s

  resolve_all_step :
      (fuel : ℕ) (n r : String) (nodes : List String) (m found after : Dict String)
      → resolve nx g failed fuel n m ≡ some (r, found)
      → resolve_all nx g failed fuel nodes found ≡ some after
      → resolve_all nx g failed fuel (n ∷ nodes) m ≡ some after
  unfolding resolve_all
  resolve_all_step fuel n r nodes m found after e rest = ground arith

  resolve_all-Complete :
      (nodes : List String) (before : Dict String)
      → ((n : String) → contains n nodes ≡ true → contains n failed ≡ true)
      → IsSound before
      → (after : Dict String) × (resolve_all nx g failed (suc (length failed)) nodes before
          ≡ some after)
        × Complete nodes before after
  unfolding resolve_all
  resolve_all-Complete [] before sub sound = (
    before,
    refl,
    record { sound = sound; entries = λ n h. absurd (false≢true h); kept = λ j s k. k },
  )
  resolve_all-Complete (n ∷ nodes) before sub sound =
      let m : contains n failed ≡ true = sub n (ground (arith, eq_self n)) in
      let le = below-le-length failed n in
      let (r, found, e, res) =
        resolve-Resolved (suc (length failed)) n before m (omega (arith, le)) sound in
      let (after, e', rest) =
        resolve_all-Complete nodes found (λ x h. sub x (ground arith)) res.sound in
      (
        after,
        resolve_all_step (suc (length failed)) n r nodes before found after e e',
        record {
          sound = rest.sound;
          entries = λ x h. elim (Bool-cases (x == n)) [
            | inl same ↦ (
              r,
              subst (λ y. get y after ≡ some r) (sym (eq→path x n same)) (rest.kept n r res.entry),
            )
            | inr other ↦ rest.entries x (ground arith)
          ];
          kept = λ j s k. rest.kept j s (res.kept j s k);
        },
      )

-- What `roots_by_node` answers.
pub record MapsToRoots (g : Digraph) (failed : List String) (root_of : Dict String) : Type 0 where
  pub total :
      (n : String)
      → contains n failed ≡ true
      → (r : String) × (get n root_of ≡ some r) × IsRoot g failed n r
  pub only : (n r : String) → get n root_of ≡ some r → contains n failed ≡ true

-- Over a closed and acyclic lineage `roots_by_node` returns (its recursion ends), and gives every failed
-- node, and no other, a root: a failed node above it, or itself, with no failed node above.
pub roots_by_node-MapsToRoots :
    (nx : Networkx) (g : Digraph) (failed : List String)
    → IsClosed g
    → IsAcyclic g
    → (root_of : Dict String) × (roots_by_node nx g failed ≡ some root_of)
      × MapsToRoots g failed root_of
unfolding roots_by_node get
roots_by_node-MapsToRoots nx g failed closed acyclic =
    let (root_of, e, whole) =
      resolve_all-Complete nx g closed acyclic failed (sorted_set failed) []
        (λ n h. sym (contains-sorted_set n failed) ∙ h) (λ n r h. cc) in
    (
      root_of,
      e,
      record {
        total = λ n m.
            let (r, entry) = whole.entries n (contains-sorted_set n failed ∙ m) in
            (r, entry, (whole.sound n r entry).1);
        only = λ n r entry. (whole.sound n r entry).0;
      },
    )
