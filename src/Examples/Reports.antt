-- ===== src/Examples/Reports.antt =====
-- Instances of what is proved of src/platform_ops/reconcile/explain.py: a report of a month's revenue, in which one amount
-- differs and one month is missing.
use data_platform_ops.Prelude.{
  true, false, get, str_leb, add_text, ◌≡◌, refl, some, List, [], ◌∷◌, all_of, Dict,
}
use data_platform_ops.Reconcile.Diff.{TableDiff, clean}
use data_platform_ops.Reconcile.Explain.{TableSpec, RawColumn, Explanation, explain, needed_names}
use data_platform_ops.Reconcile.Explain.Accounted.{accounted, explain-accounted}

abbrev revenue_report : TableSpec
revenue_report = record {
  key = "month" ∷ [];
  columns =
      record { name = "month"; target_name = "" }
      ∷ record { name = "revenue"; target_name = "usd" }
      ∷ [];
  upstream = "payments" ∷ [];
}

abbrev revenue_diff : TableDiff
revenue_diff = record {
  missing = "2026-03" ∷ [];
  extra = [];
  cells = record { key = "2026-02"; column = "revenue"; source = "10"; target = "12" } ∷ [];
  duplicates = [];
  in_flight = [];
}

abbrev traced_columns : Dict (List RawColumn)
traced_columns = ("month", ("payments", "paid_at") ∷ []) ∷ ("usd", ("payments", "amount") ∷ []) ∷ []

abbrev amount_differs : List RawColumn
amount_differs = ("payments", "amount") ∷ []

-- The amount alone does not explain the missing month, rows missing from the payments do.
unexplained_month :
    explain revenue_report revenue_diff (some traced_columns) amount_differs []
    ≡ some (record { explained = false; causes = "payments.amount" ∷ []; traced = true })
unfolding explain clean str_leb get add_text
unexplained_month = refl

explained_month :
    explain revenue_report revenue_diff (some traced_columns) amount_differs ("payments" ∷ [])
    ≡ some (record {
      explained = true;
      causes = "payments (rows)" ∷ "payments.amount" ∷ [];
      traced = true;
    })
unfolding explain clean str_leb get add_text
explained_month = refl

explain-accounted_example :
    (e : Explanation) × (explain revenue_report revenue_diff
        (some traced_columns)
        amount_differs
        ("payments" ∷ [])
      ≡ some e)
    × (e.explained
        ≡ all_of
            (accounted revenue_report traced_columns amount_differs ("payments" ∷ []))
            (needed_names revenue_report revenue_diff))
unfolding explain get
explain-accounted_example =
    explain-accounted revenue_report revenue_diff traced_columns amount_differs ("payments" ∷ [])
      refl
