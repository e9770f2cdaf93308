-- ===== src/Metadata/Graph/Search/Collect.antt =====
-- All nodes above a node, by widening a set until nothing new is found.
use mathlib.Core.Bool.{false≢true}
use data_platform_ops.Prelude.{
  ℕ, zero, suc, ◌<◌, String, ◌≡◌, ◌≢◌, refl, sym, subst, ◌⊎◌, inl, inr, true, false, List, [], ◌∷◌,
  ◌++◌, contains, difference, length, length-keep-le, keep, not, ◌&&◌, ◌==◌, arith, Bool-cases,
  contains-append, contains-keep, eq_iff, eq→path, eq_self, unseen, unseen-append-lt,
}
use data_platform_ops.Metadata.Graph.{Digraph, Steps, here, up, contains_edge}
use data_platform_ops.Metadata.Graph.Search.Parents.{
  Edges, sources, length-sources, source-mem, all_parents, all_parents_sound, all_parents_complete,
}

collect : Edges → ℕ → List String → List String → List String
collect es zero frontier seen = seen
collect es (suc fuel) [] seen = seen
collect es (suc fuel) (c ∷ cs) seen =
    let ps = difference (all_parents es (c ∷ cs)) seen in collect es fuel ps (seen ++ ps)

module _ (g : Digraph) (n : String) where
  abbrev es : Edges
  es = g.edges

  record Found (frontier seen : List String) : Type 0 where
    start : contains n seen ≡ true
    sound : (p : String) → contains p seen ≡ true → (k : ℕ) × Steps g n k p
    settled :
        (c p : String)
        → contains c seen ≡ true
        → contains c frontier ≡ false
        → contains_edge p c es ≡ true
        → contains p seen ≡ true

  Found-next :
      (frontier seen : List String)
      → Found frontier seen
      → ((c : String) → contains c frontier ≡ true → contains c seen ≡ true)
      → Found
          (difference (all_parents es frontier) seen)
          (seen ++ difference (all_parents es frontier) seen)
  Found-next frontier seen f sub = record {
    start = ground (arith, contains-append n seen ps, f.start);
    sound = λ p h. elim (Bool-cases (contains p seen)) [
      | inl old ↦ f.sound p old
      | inr new ↦
          let above : contains p (all_parents es frontier) ≡ true =
            ground (arith, contains-append p seen ps, split p) in
          let (c, m, e) = all_parents_sound es frontier p above in
          let (k, s) = f.sound c (sub c m) in (suc k, up s e)
    ];
    settled = λ c p s o e.
        let old : contains c seen ≡ true = ground (arith, contains-append c seen ps) in
        elim (Bool-cases (contains c frontier)) [
          | inl now ↦
              let above = all_parents_complete es frontier p c now e in
              ground (arith, contains-append p seen ps, split p)
          | inr before ↦
              let there = f.settled c p old before e in ground (arith, contains-append p seen ps)
        ];
  }
    where
      ps : List String
      ps = difference (all_parents es frontier) seen

      split :
          (p : String)
          → contains p ps ≡ (contains p (all_parents es frontier) && not (contains p seen))
      split p = contains-keep (λ x. not (contains x seen)) p (all_parents es frontier)

  fewer :
      (frontier seen : List String) (fuel : ℕ)
      → unseen (sources es) seen < suc fuel
      → (xs : List String)
      → ((x : String)
          → contains x xs ≡ true
          → contains x (difference (all_parents es frontier) seen) ≡ true)
      → (xs ≡ []) ⊎ (unseen (sources es) (seen ++ difference (all_parents es frontier) seen) < fuel)
  fewer frontier seen fuel m [] sub = inl refl
  fewer frontier seen fuel m (x ∷ xs) sub =
      let ps = difference (all_parents es frontier) seen in
      let m_x : contains x ps ≡ true = sub x (ground (arith, eq_self x)) in
      let split = contains-keep (λ y. not (contains y seen)) x (all_parents es frontier) in
      let above : contains x (all_parents es frontier) ≡ true = ground arith in
      let fresh : contains x seen ≡ false = ground arith in
      let (c, _, e) = all_parents_sound es frontier x above in
      let known = source-mem es x c e in
      inr (omega (arith, unseen-append-lt (sources es) seen ps x known fresh m_x))

  collect-Found :
      (fuel : ℕ) (frontier seen : List String)
      → Found frontier seen
      → ((c : String) → contains c frontier ≡ true → contains c seen ≡ true)
      → (frontier ≡ []) ⊎ (unseen (sources es) seen < fuel)
      → Found [] (collect es fuel frontier seen)
  unfolding collect
  collect-Found zero [] seen f sub m = f
  collect-Found zero (c ∷ cs) seen f sub m = absurd (ground arith)
  collect-Found (suc fuel) [] seen f sub m = f
  collect-Found (suc fuel) (c ∷ cs) seen f sub m =
      let ps = difference (all_parents es (c ∷ cs)) seen in
      let enough : unseen (sources es) seen < suc fuel = ground arith in
      collect-Found fuel ps (seen ++ ps) (Found-next (c ∷ cs) seen f sub)
        (λ p h. ground (arith, contains-append p seen ps))
        (fewer (c ∷ cs) seen fuel enough ps (λ x h. h))

  everything : List String
  unfolding collect all_parents
  everything = collect es (suc (length es)) (n ∷ []) (n ∷ [])

  everything-Found : Found [] everything
  unfolding everything
  everything-Found =
      collect-Found (suc (length es)) (n ∷ []) (n ∷ [])
        (record {
          start = ground (arith, eq_self n);
          sound =
              λ p h. (zero, subst (λ q. Steps g n zero q) (sym (eq→path p n (ground arith))) here);
          settled = λ c p s o e. absurd (ground arith);
        })
        (λ c h. h)
        (inr (
          omega (
            arith,
            length-keep-le (λ x. not (contains x (n ∷ []))) (sources es),
            length-sources es,
          )))

  unfoldable pub above : List String
  unfolding everything
  above = keep (λ a. not (a == n)) everything

  pub above_sound : (a : String) → contains a above ≡ true → (a ≢ n) × ((k : ℕ) × Steps g n k a)
  unfolding above
  above_sound a h =
      let split = contains-keep (λ x. not (x == n)) a everything in
      let other : (a == n) ≡ false = ground arith in
      let among : contains a everything ≡ true = ground arith in
      (λ e. false≢true (ground (arith, eq_iff a n)), everything-Found.sound a among)

  pub above_complete : (a : String) (k : ℕ) → a ≢ n → Steps g n k a → contains a above ≡ true
  unfolding above
  above_complete a k other s =
      ground (arith, contains-keep (λ x. not (x == n)) a everything, eq_iff a n, reached a k s)
    where
      reached : (p : String) (j : ℕ) → Steps g n j p → contains p everything ≡ true
      reached p j here = everything-Found.start
      reached p j (up {c = c} t e) = everything-Found.settled c p (reached c _ t) refl e
