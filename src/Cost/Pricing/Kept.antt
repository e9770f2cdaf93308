-- ===== src/Cost/Pricing/Kept.antt =====
-- `ComputePricing.bursts` of src/platform_ops/cost/pricing.py loses no query and keeps the queries' order.
use data_platform_ops.Prelude.{
  ℕ, String, true, false, List, [], ◌∷◌, ◌++◌, ◌≡◌, refl, sym, ap, ◌∙◌, map, Bool-cases, inl, inr,
}
use mathlib.Core.List.{append_assoc, append-nil}
use data_platform_ops.Cost.Pricing.{
  EstimatedQuery, Burst, Running, closed_with, closed, joined_with, too_late, lay, opened, joined,
  lay_out,
}

abbrev pub queries_of : List Burst → List (String × ℕ)
queries_of [] = []
queries_of (b ∷ bs) = b.queries ++ queries_of bs

-- A query with its modelled time.
abbrev pub entry : EstimatedQuery → String × ℕ
entry q = (q.query_id, q.modeled_ms)

queries-append : (bs cs : List Burst) → queries_of (bs ++ cs) ≡ queries_of bs ++ queries_of cs
queries-append [] cs = refl
queries-append (b ∷ bs) cs =
    ap (λ qs. b.queries ++ qs) (queries-append bs cs)
    ∙ sym (append_assoc b.queries (queries_of bs) (queries_of cs))

queries-closed_with :
    (warehouse : String) (current : List (String × ℕ)) (running : Running)
    → queries_of (closed_with warehouse current running) ≡ current
unfolding closed_with
queries-closed_with warehouse [] running = refl
queries-closed_with warehouse (q ∷ qs) running = append-nil (q ∷ qs)

queries-closed :
    (warehouse : String) (running : Running)
    → queries_of (closed warehouse running) ≡ running.current
unfolding closed
queries-closed warehouse running = queries-closed_with warehouse running.current running

joined_with-current :
    (current : List (String × ℕ)) (q : EstimatedQuery) (running : Running)
    → running.current ≡ current
    → (joined_with current q running).current ≡ current
unfolding joined_with opened
joined_with-current [] q running h = refl
joined_with-current (c ∷ cs) q running h = h

late-lay_out :
    (idle_ms : ℕ) (warehouse : String) (q : EstimatedQuery) (queries : List EstimatedQuery)
    (running : Running)
    → too_late idle_ms q running ≡ true
    → lay_out idle_ms warehouse (q ∷ queries) running
      ≡ closed warehouse running ++ lay_out idle_ms warehouse queries (lay q (opened q))
unfolding lay_out
late-lay_out idle_ms warehouse q queries running e = rw e

on-lay_out :
    (idle_ms : ℕ) (warehouse : String) (q : EstimatedQuery) (queries : List EstimatedQuery)
    (running : Running)
    → too_late idle_ms q running ≡ false
    → lay_out idle_ms warehouse (q ∷ queries) running
      ≡ lay_out idle_ms warehouse queries (lay q (joined q running))
unfolding lay_out
on-lay_out idle_ms warehouse q queries running e = rw e

-- The bursts of a warehouse hold the queries still open and then those laid out: each once, in their order.
pub queries-lay_out :
    (idle_ms : ℕ) (warehouse : String) (queries : List EstimatedQuery) (running : Running)
    → queries_of (lay_out idle_ms warehouse queries running) ≡ running.current ++ map entry queries
unfolding lay_out lay joined opened
queries-lay_out idle_ms warehouse [] running =
    queries-closed warehouse running ∙ sym (append-nil running.current)
queries-lay_out idle_ms warehouse (q ∷ queries) running =
    elim (Bool-cases (too_late idle_ms q running)) [
      | inl e ↦
          ap queries_of (late-lay_out idle_ms warehouse q queries running e)
          ∙ queries-append (closed warehouse running)
              (lay_out idle_ms warehouse queries (lay q (opened q)))
          ∙ ap (λ qs. qs ++ queries_of (lay_out idle_ms warehouse queries (lay q (opened q))))
              (queries-closed warehouse running)
          ∙ ap (λ qs. running.current ++ qs)
              (queries-lay_out idle_ms warehouse queries (lay q (opened q)))
      | inr e ↦
          ap queries_of (on-lay_out idle_ms warehouse q queries running e)
          ∙ queries-lay_out idle_ms warehouse queries (lay q (joined q running))
          ∙ ap (λ current. (current ++ (entry q ∷ [])) ++ map entry queries)
              (joined_with-current running.current q running refl)
          ∙ append_assoc running.current (entry q ∷ []) (map entry queries)
    ]
