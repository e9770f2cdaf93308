-- ===== src/Incidents/Routing.antt =====
-- src/platform_ops/incidents/routing.py: who is paged for an incident. Column lineage is read from dbt's compiled SQL by
-- a SQL parser and is a parameter here: `model` is `none` where `LineageUnavailable` is raised.
use data_platform_ops.Prelude.{
  ℕ, String, Bool, not, ◌&&◌, Option, none, some, List, [], ◌∷◌, ◌++◌, keep, sorted_set,
  if◌then◌else◌, Dict, get, or_default, leb, ◌==◌, startswith,
}
use data_platform_ops.Metadata.Manifest.{Node}
use data_platform_ops.Metadata.Registry.{Registry, resolve}
use data_platform_ops.Incidents.Events.{CheckEvent}
use data_platform_ops.Incidents.Policy.{dataset_of}

pub record ColumnLineage : Type 0 where
  -- f"{lineage.raw_source}{table}"
  pub source_of : String → String
  -- each column of a model, with the (table, column) pairs it reads
  pub model : String → Option (Dict (List (String × String)))

abbrev pub unowned : String
unowned = "unowned"

abbrev pub staging_prefix : String
staging_prefix = "stg_"

pub record Route : Type 0 where
  pub owner : String
  pub team : String
  pub routed_via : String
  pub backup : Option String

-- The backup when it is named (and not empty) and the owner has as many incidents as the limit.
unfoldable pub paged : Route → Dict ℕ → ℕ → String
paged page open_by_person max_open_per_person = elim page.backup [
  | none ↦ page.owner
  | some backup ↦
      if not (backup == "")
        && leb max_open_per_person (or_default 0 (get page.owner open_by_person))
      then backup
      else page.owner
]

-- The columns of the failing tests, or `none` where one of the events is no column test.
columns_of : Dict Node → List CheckEvent → Option (List String)
columns_of nodes [] = some []
columns_of nodes (event ∷ events) =
    let rest = columns_of nodes events in
    elim (get event.check_id nodes) [
      | none ↦ none
      | some test ↦ elim test.test_columns [
        | [] ↦ none
        | c ∷ cs ↦
            if event.check_type == "test"
            then elim rest [ none ↦ none | some columns ↦ some ((c ∷ cs) ++ columns) ]
            else none
      ]
    ]

tables_of : List (String × String) → List String
tables_of [] = []
tables_of ((table, column) ∷ reads) = table ∷ tables_of reads

sources_named : ColumnLineage → List String → List String
sources_named lineage [] = []
sources_named lineage (table ∷ tables) = lineage.source_of table ∷ sources_named lineage tables

-- The sources that the columns read, or `none` where a column reads nothing known.
sources_read : ColumnLineage → Dict (List (String × String)) → List String → Option (List String)
sources_read lineage traced [] = some []
sources_read lineage traced (column ∷ columns) =
    let rest = sources_read lineage traced columns in
    elim (or_default [] (get column traced)) [
      | [] ↦ none
      | read ∷ reads ↦ elim rest [
        | none ↦ none
        | some sources ↦ some (sources_named lineage (tables_of (read ∷ reads)) ++ sources)
      ]
    ]

-- sources.pop() if len(sources) == 1 else None
single : List String → Option String
single [] = none
single (s ∷ []) = some s
single (s ∷ t ∷ rest) = none

trace : ColumnLineage → String → List String → Option String
unfolding sources_read sources_named tables_of single
trace lineage dataset columns = elim (lineage.model dataset) [
  | none ↦ none
  | some traced ↦ elim (sources_read lineage traced columns) [
    | none ↦ none
    | some sources ↦ single (sorted_set sources)
  ]
]

trace_own : Dict Node → ColumnLineage → String → List CheckEvent → Option String
unfolding columns_of trace
trace_own nodes lineage dataset [] = none
trace_own nodes lineage dataset (e ∷ own) = elim (columns_of nodes (e ∷ own)) [
  | none ↦ none
  | some columns ↦ trace lineage dataset columns
]

-- The one source that every failing column of the dataset is traced to.
unfoldable pub source_of_failing_columns :
    String → Dict Node → List CheckEvent → Option ColumnLineage → Option String
unfolding trace_own
source_of_failing_columns dataset nodes events none = none
source_of_failing_columns dataset nodes events (some lineage) = elim (get dataset nodes) [
  | none ↦ none
  | some node ↦
      if node.resource_type == "model"
      then trace_own nodes lineage dataset (keep (λ e. e.subject == dataset) events)
      else none
]

-- The sources among what a node depends on.
unfoldable pub source_parents : Node → List String
source_parents node = keep (λ p. startswith p "source.") node.depends_on

module _ (fnmatchcase : String → String → Bool) where
  unfoldable pub route_to : String → Registry → Route
  route_to dataset registry = elim (resolve fnmatchcase registry dataset).rule [
    | none ↦ record { owner = unowned; team = unowned; routed_via = dataset; backup = none }
    | some rule ↦ record {
      owner = rule.owner;
      team = rule.team;
      routed_via = dataset;
      backup = rule.backup;
    }
  ]

  unfoldable pub naive_route : String → Dict Node → Registry → Route
  unfolding route_to
  naive_route root nodes registry = route_to (dataset_of root nodes) registry

  -- A staging model with one source stands for that source.
  staging_source : Dict Node → String → Option String
  unfolding single source_parents
  staging_source nodes dataset = elim (get dataset nodes) [
    | none ↦ none
    | some node ↦
        if (node.resource_type == "model") && startswith node.name staging_prefix
        then single (source_parents node)
        else none
  ]

  unfoldable pub route :
      String → Dict Node → Registry → List CheckEvent → Option ColumnLineage → Route
  unfolding route_to staging_source
  route root nodes registry events lineage =
      let dataset = dataset_of root nodes in
      elim (source_of_failing_columns dataset nodes events lineage) [
        | some source ↦ route_to source registry
        | none ↦ elim (staging_source nodes dataset) [
          | some source ↦ route_to source registry
          | none ↦ route_to dataset registry
        ]
      ]
