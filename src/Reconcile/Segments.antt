-- ===== src/Reconcile/Segments.antt =====
-- What the connectors of src/platform_ops/reconcile/connectors.py answer: `summarize` and `fetch` of PostgresConnector and
-- ClickHouseConnector, which compute the same on either side. A side is the list of its rows, as canonical key and
-- canonical values (on the legacy side, the rows as of the watermark). The engines' MD5 is not part of the repository:
-- the 32-bit bucket of a key and the two hashes of a row are parameters.
pub mod Laws
use data_platform_ops.Prelude.{
  ℕ, zero, suc, ◌+◌, ◌-◌, ◌/◌, String, Bool, true, false, ◌&&◌, Option, none, some, List, [], ◌∷◌,
  ◌++◌, keep, if◌then◌else◌, eqb, has_num,
}

abbrev pub Row : Type 0
Row = String × List String

pub record Summary : Type 0 where
  pub rows : ℕ
  pub h1 : ℕ
  pub h2 : ℕ

-- FANOUT, and MAX_DEPTH: 8 hex digits of 4 bits are the bucket's 32.
abbrev pub fanout : ℕ
fanout = 16

abbrev pub max_depth : ℕ
max_depth = 8

-- bucket >> (4 * n)
unfoldable pub shift_right : ℕ → ℕ → ℕ
shift_right zero bucket = bucket
shift_right (suc n) bucket = shift_right n (bucket / 16)

-- left.get(b)
unfoldable pub summary_at : ℕ → List (ℕ × Summary) → Option Summary
summary_at b [] = none
summary_at b ((c, s) ∷ summaries) =
    let rest = summary_at b summaries in if eqb c b then some s else rest

-- left.keys()
abbrev pub segments_of : List (ℕ × Summary) → List ℕ
segments_of [] = []
segments_of ((c, s) ∷ summaries) = c ∷ segments_of summaries

-- left.get(b) == right.get(b)
unfoldable pub same_summary : Option Summary → Option Summary → Bool
same_summary none none = true
same_summary (some s) (some t) = eqb s.rows t.rows && (eqb s.h1 t.h1 && eqb s.h2 t.h2)
same_summary _ _ = false

unfoldable pub add_row : ℕ → ℕ → ℕ → List (ℕ × Summary) → List (ℕ × Summary)
add_row b h1 h2 [] = (b, record { rows = 1; h1 = h1; h2 = h2 }) ∷ []
add_row b h1 h2 ((c, s) ∷ summaries) =
    let rest = add_row b h1 h2 summaries in
    if eqb c b
    then (c, record { rows = s.rows + 1; h1 = s.h1 + h1; h2 = s.h2 + h2 }) ∷ summaries
    else (c, s) ∷ rest

module _ (bucket_of : String → ℕ) (hash1 hash2 : Row → ℕ) where
  -- bucket >> _shift(depth)
  unfoldable pub segment : ℕ → String → ℕ
  segment depth key = shift_right (max_depth - depth) (bucket_of key)

  -- The WHERE of a level: the rows of the parents' segments, from the second level on.
  unfoldable pub selected : ℕ → List ℕ → Row → Bool
  unfolding segment
  selected zero parents row = true
  selected (suc zero) parents row = true
  selected (suc (suc depth)) parents row = has_num (segment (suc depth) row.0) parents

  unfoldable pub grouped : ℕ → List Row → List (ℕ × Summary)
  unfolding segment
  grouped depth [] = []
  grouped depth (row ∷ rows) =
      add_row (segment depth row.0) (hash1 row) (hash2 row) (grouped depth rows)

  unfoldable pub summarize : List Row → ℕ → List ℕ → List (ℕ × Summary)
  unfolding segment
  summarize rows depth parents = grouped depth (keep (selected depth parents) rows)

  unfoldable pub fetch : List Row → ℕ → List ℕ → List Row
  unfolding segment
  fetch rows depth buckets = keep (λ row. has_num (segment depth row.0) buckets) rows
