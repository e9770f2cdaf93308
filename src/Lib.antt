-- ===== src/Lib.antt =====
-- The operations layer of a data platform: who owns a dataset, what to do when dbt's checks fail, what queries cost and
-- who pays, and when a migrated warehouse may take over. Paths are from the repository's root.
--
-- Parts and files:
--   Metadata/Manifest, Metadata/Graph   the nodes of dbt's manifest (`src/platform_ops/metadata/manifest.py`, `Node`) and
--     the lineage as an `nx.DiGraph`: vertices with their types and edges from parent to child
--   Metadata/Lineage    `src/platform_ops/metadata/lineage.py`: `build_graph`, `upstream`, `downstream`,
--     `nearest_failed_ancestor` (its `while` loop is `nearest_loop`), `downstream_consumers`, `consumer_weight`
--   Metadata/Registry   `src/platform_ops/metadata/registry.py`: rules, `specificity`, `resolve`, `rule_problems`
--   Metadata/Check      `src/platform_ops/metadata/check.py`: `run_check`
--   Incidents/Events, Incidents/Ingest   `src/platform_ops/incidents/ingest.py`: results of dbt as check events
--   Incidents/Grouping  `src/platform_ops/incidents/grouping.py`: `roots_by_node`, `group_failures`, `shared_failures`
--   Incidents/Policy, Incidents/Routing  `src/platform_ops/incidents/severity.py`, `src/platform_ops/incidents/routing.py`
--   Incidents/Desk      `src/platform_ops/incidents/desk.py` on the tables of `src/platform_ops/incidents/store.py`: the store
--     is a record of lists of rows (Tables), and each function of the desk takes a store and gives a `Result` of a new one.
--     Context has `Context.load` and what a run says of a root, Open `_open` and `_set_resolution`, Assign the loop of
--     `_regroup` that gives each group its incident, Escalate `_escalate`, Queue `_queue` and `_deliver`, Regroup the
--     rest of `_regroup`, and Transaction `_record` and `ingest_target`
--   Cost/Attribution, Cost/Pricing   `src/platform_ops/cost/attribution.py`, `src/platform_ops/cost/pricing.py`
--   Metadata/Bootstrap  `src/platform_ops/metadata/bootstrap.py`: `_cover`, which turns a folder into patterns, and `starter_rules`
--   Cost/Cluster        `src/platform_ops/cost/cluster.py` and the months of `src/platform_ops/cost/business.py`
--   Cost/Recommend      `unused_tables` and `incremental_candidates` of `src/platform_ops/cost/recommend.py`
--   Incidents/Metrics   `compute` of `src/platform_ops/incidents/metrics.py`, with delays in seconds where it takes means of hours
--   Common/Clock        `SimulatedClock` of `src/platform_ops/common/clock.py`
--   Reconcile/Segments  `summarize` and `fetch` of `src/platform_ops/reconcile/connectors.py`, on the list of a side's rows
--   Reconcile/Diff, Reconcile/Descent   `diff_table` of `src/platform_ops/reconcile/diff.py`: the rows compared, and the loop
--     over the levels of segments (`descend`) that chooses them
--   Reconcile/Explain   `explain` of `src/platform_ops/reconcile/explain.py`: whether the raw tables explain a report's differences
--   Reconcile/Cutover, Reconcile/Grade  `decide` (`src/platform_ops/reconcile/parallel.py`) and `grade` (`src/platform_ops/reconcile/metrics.py`)
--   Prelude   dicts as association lists in insertion order, sets of text, the stable sort, Boolean tests
--   Examples  a small project on which the results are instantiated; Order also runs two orders of ingests that are refused
--
-- How they interact: the check events that Ingest makes are grouped by the failed node that caused them, found in the
-- lineage; the desk joins each group to an incident, which Policy scores and Routing sends to the owner that the registry
-- names. Cost reads the same registry. Writes of the desk go through a few operations, and `Desk/Writes` is the record of
-- what a property of the store needs for each of them to keep it (filing the run's events apart): Assign, Escalate, Regroup and Transaction are proved once
-- against that record, and each invariant fills it.
--
-- Conventions: times are natural numbers of seconds (milliseconds in Pricing), a moment of the desk has its calendar day
-- beside it, money is a number of 1e-12 dollars, and texts that only a person reads are data types. A failed write of the
-- database is a value of `Failure`.
--
-- Bounds and fuel: `nearest_loop` runs on one more round than the graph has vertices, and each round sees a new vertex;
-- the recursion of `roots_by_node` runs on one more call than there are failed nodes, which stands for Python's recursion
-- limit. That both are enough is part of what is proved of them. `_cover` takes fuel for its recursion: what it needs is
-- stated of names that do not start with an underscore. The descent has at most MAX_DEPTH levels.
--
-- Parameters: networkx (`Networkx`, with its documented laws, which `by_search` meets), `fnmatchcase`, the engines' MD5 (a key's bucket and a row's two hashes), Python's decimals
-- where they divide, column lineage from
-- the SQL parser, the calendar of an instant, and the channels of a message.
--
-- Not modelled: files, YAML, JSON and SQL, the database's locks and migrations, prices and rates that are decimals or
-- floats, the simulated company, dashboards and reports.
pub mod Common
pub mod Prelude
pub mod Metadata
pub mod Incidents
pub mod Cost
pub mod Reconcile
pub mod Examples
