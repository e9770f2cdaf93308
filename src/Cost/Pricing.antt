-- ===== src/Cost/Pricing.antt =====
-- `ComputePricing` of src/platform_ops/cost/pricing.py: the periods in which a warehouse runs. The warehouse of a query
-- is already looked up (`rates.warehouses[query.actor_type]`), times are milliseconds since the epoch. The price of a
-- period in dollars is not modelled: it is a quotient of decimals.
pub mod Kept
use data_platform_ops.Prelude.{
  ℕ, zero, suc, ◌+◌, ◌-◌, ◌*◌, ◌/◌, max, String, Bool, true, false, not, ◌&&◌, ◌||◌, List, [], ◌∷◌,
  ◌++◌, keep, map, if◌then◌else◌, ltb, eqb, ◌==◌, str_leb, sort_by, sum_of, sorted_set,
}

pub record ScanRates : Type 0 where
  pub minimum_billed_bytes_per_table : ℕ

pub record ComputeRates : Type 0 where
  pub idle_timeout_seconds : ℕ
  pub minimum_billed_seconds : ℕ

pub record EstimatedQuery : Type 0 where
  pub query_id : String
  pub warehouse : String
  pub started_ms : ℕ
  pub modeled_ms : ℕ
  pub table_bytes : List ℕ

pub record Burst : Type 0 where
  pub warehouse : String
  pub started_ms : ℕ
  pub last_end_ms : ℕ
  pub queries : List (String × ℕ)

-- `ScanPricing.billed_bytes`
unfoldable pub billed_bytes : ScanRates → EstimatedQuery → ℕ
billed_bytes rates query =
    sum_of (λ b. max b rates.minimum_billed_bytes_per_table) query.table_bytes

start_leb : EstimatedQuery → EstimatedQuery → Bool
start_leb a b =
    ltb a.started_ms b.started_ms
    || (eqb a.started_ms b.started_ms && str_leb a.query_id b.query_id)

-- The running period so far: `current`, `burst_start` and `last_end`.
pub record Running : Type 0 where
  pub current : List (String × ℕ)
  pub burst_start : ℕ
  pub last_end : ℕ

is_empty {ℓ} : {A : Type ℓ} → List A → Bool
is_empty [] = true
is_empty (x ∷ xs) = false

closed_with : String → List (String × ℕ) → Running → List Burst
closed_with warehouse [] running = []
closed_with warehouse (q ∷ qs) running =
    record {
      warehouse = warehouse;
      started_ms = running.burst_start;
      last_end_ms = running.last_end;
      queries = q ∷ qs;
    }
    ∷ []

-- if current: bursts.append(...)
closed : String → Running → List Burst
unfolding closed_with
closed warehouse running = closed_with warehouse running.current running

-- Whether the query is submitted too late for the running period, which is then closed.
too_late : ℕ → EstimatedQuery → Running → Bool
unfolding is_empty
too_late idle_ms query running =
    not (is_empty running.current) && ltb (running.last_end + idle_ms) query.started_ms

-- One query at a time.
lay : EstimatedQuery → Running → Running
lay query running = record {
  current = running.current ++ ((query.query_id, query.modeled_ms) ∷ []);
  burst_start = running.burst_start;
  last_end = max query.started_ms running.last_end + query.modeled_ms;
}

opened : EstimatedQuery → Running
opened query = record { current = []; burst_start = query.started_ms; last_end = query.started_ms }

joined_with : List (String × ℕ) → EstimatedQuery → Running → Running
joined_with [] query running = opened query
joined_with (q ∷ qs) query running = running

-- The running period that the query joins: a new one when there is none.
joined : EstimatedQuery → Running → Running
unfolding joined_with
joined query running = joined_with running.current query running

pub lay_out : ℕ → String → List EstimatedQuery → Running → List Burst
unfolding lay joined opened closed too_late
lay_out idle_ms warehouse [] running = closed warehouse running
lay_out idle_ms warehouse (query ∷ queries) running =
    let on = lay_out idle_ms warehouse queries (lay query (joined query running)) in
    let anew = lay_out idle_ms warehouse queries (lay query (opened query)) in
    if too_late idle_ms query running then closed warehouse running ++ anew else on

pub of_warehouse : String → List EstimatedQuery → List EstimatedQuery
unfolding start_leb
of_warehouse warehouse queries = sort_by start_leb (keep (λ q. q.warehouse == warehouse) queries)

abbrev pub idle : Running
idle = record { current = []; burst_start = 0; last_end = 0 }

bursts_of : ℕ → List EstimatedQuery → List String → List Burst
unfolding lay_out of_warehouse
bursts_of idle_ms queries [] = []
bursts_of idle_ms queries (warehouse ∷ warehouses) =
    lay_out idle_ms warehouse (of_warehouse warehouse queries) idle
    ++ bursts_of idle_ms queries warehouses

unfoldable pub bursts : ComputeRates → List EstimatedQuery → List Burst
unfolding bursts_of
bursts rates queries =
    bursts_of (rates.idle_timeout_seconds * 1000) queries
      (sorted_set (map (λ q. q.warehouse) queries))

-- The seconds billed for a period, rounded up, whose end is not before its start.
unfoldable pub burst_seconds : ComputeRates → Burst → ℕ
burst_seconds rates burst =
    max rates.minimum_billed_seconds
      ((burst.last_end_ms - burst.started_ms + rates.idle_timeout_seconds * 1000 + 999) / 1000)
