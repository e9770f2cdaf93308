-- ===== src/Incidents/Ingest.antt =====
-- src/platform_ops/incidents/ingest.py: dbt's result files as check events. A result's `message` stands for
-- what `_message` makes of dbt's text, and the files are already read (`read_target`).
use data_platform_ops.Prelude.{
  ℕ, String, Bool, true, false, not, ◌&&◌, Option, none, some, List, [], ◌∷◌, contains, keep, ◌++◌,
  any_of, sum_of, sorted_set, length, sort_by, if◌then◌else◌, Dict, get, str_leb, ◌==◌, startswith,
}
use data_platform_ops.Metadata.Manifest.{Node}
use data_platform_ops.Incidents.Events.{CheckEvent, event_leb}

abbrev pub failed_test_statuses : List String
failed_test_statuses = "fail" ∷ "error" ∷ []

abbrev pub failed_freshness_statuses : List String
failed_freshness_statuses = "error" ∷ "runtime error" ∷ []

pub record RunOutcome : Type 0 where
  pub events : List CheckEvent
  pub skipped : List String
  pub checks_run : ℕ

pub record Result : Type 0 where
  pub unique_id : String
  pub status : String
  pub message : String

pub data Kind : Type 0 where
  run_results sources : Kind

pub record Artifact : Type 0 where
  pub invocation_id : String
  pub kind : Kind
  pub generated_at : ℕ
  pub results : List Result

attached_or : Option String → String → String
attached_or none other = other
attached_or (some n) other = if n == "" then other else n

-- The parents, without macros.
data_parents : Node → List String
data_parents test = keep (λ p. not (startswith p "macro.")) test.depends_on

single_source : List String → String → String
single_source (p ∷ []) other = if startswith p "source." then p else other
single_source ps other = other

few : List String → Bool
few [] = true
few (p ∷ []) = true
few (p ∷ q ∷ rest) = false

unfoldable pub test_subject : Node → String
unfolding data_parents single_source few attached_or
test_subject test =
    let parents = data_parents test in
    let other = single_source parents test.unique_id in
    if few parents then attached_or test.attached_node other else other

-- freshness:<unique id>
prefixed : String → String → String
prefixed String.[] t = t
prefixed (String.◌∷◌ c s) t = String.◌∷◌ c (prefixed s t)

-- What one entry of `run_results.json` is: a skip, a failure, or neither.
unfoldable pub outcome_of : Dict Node → String → ℕ → Result → Option CheckEvent × Option String
unfolding test_subject
outcome_of nodes run_id detected_at result = elim (get result.unique_id nodes) [
  | none ↦ (none, none)
  | some node ↦
      if result.status == "skipped"
      then (none, some result.unique_id)
      else if (node.resource_type == "model") && (result.status == "error")
      then (
        some (record {
          run_id = run_id;
          check_id = result.unique_id;
          check_type = "model";
          subject = result.unique_id;
          status = result.status;
          message = result.message;
          detected_at = detected_at;
        }),
        none,
      )
      else if (node.resource_type == "test") && contains result.status failed_test_statuses
      then (
        some (record {
          run_id = run_id;
          check_id = result.unique_id;
          check_type = "test";
          subject = test_subject node;
          status = result.status;
          message = result.message;
          detected_at = detected_at;
        }),
        none,
      )
      else (none, none)
]

-- The elements that are there.
unfoldable pub present {ℓ} : {A : Type ℓ} → List (Option A) → List A
present [] = []
present (none ∷ xs) = present xs
present (some x ∷ xs) = x ∷ present xs

events_in : Dict Node → String → ℕ → List Result → List (Option CheckEvent)
events_in nodes run_id at [] = []
events_in nodes run_id at (r ∷ rs) = (outcome_of nodes run_id at r).0 ∷ events_in nodes run_id at rs

skips_in : Dict Node → String → ℕ → List Result → List (Option String)
skips_in nodes run_id at [] = []
skips_in nodes run_id at (r ∷ rs) = (outcome_of nodes run_id at r).1 ∷ skips_in nodes run_id at rs

unfoldable pub parse_run_results : Dict Node → String → ℕ → List Result → RunOutcome
unfolding events_in skips_in present
parse_run_results nodes run_id detected_at results = record {
  events = sort_by event_leb (present (events_in nodes run_id detected_at results));
  skipped = sort_by str_leb (present (skips_in nodes run_id detected_at results));
  checks_run = length results;
}

stale_events : String → ℕ → List Result → List CheckEvent
unfolding prefixed
stale_events run_id at [] = []
stale_events run_id at (r ∷ rs) =
    let rest = stale_events run_id at rs in
    if contains r.status failed_freshness_statuses
    then record {
      run_id = run_id;
      check_id = prefixed "freshness:" r.unique_id;
      check_type = "freshness";
      subject = r.unique_id;
      status = r.status;
      message = r.message;
      detected_at = at;
    }
      ∷ rest
    else rest

unfoldable pub parse_freshness : String → ℕ → List Result → RunOutcome
unfolding stale_events
parse_freshness run_id detected_at results = record {
  events = sort_by event_leb (stale_events run_id detected_at results);
  skipped = [];
  checks_run = length results;
}

unfoldable pub parse : Artifact → Dict Node → String → ℕ → RunOutcome
parse artifact nodes run_id detected_at = elim artifact.kind [
  | sources ↦ parse_freshness run_id detected_at artifact.results
  | run_results ↦ parse_run_results nodes run_id detected_at artifact.results
]

all_events : List RunOutcome → List CheckEvent
all_events [] = []
all_events (o ∷ os) = o.events ++ all_events os

all_skipped : List RunOutcome → List String
all_skipped [] = []
all_skipped (o ∷ os) = o.skipped ++ all_skipped os

same_event : CheckEvent → CheckEvent → Bool
same_event a b = event_leb a b && event_leb b a

-- The events as a set.
distinct_events : List CheckEvent → List CheckEvent
unfolding same_event
distinct_events [] = []
distinct_events (e ∷ es) =
    let rest = distinct_events es in if any_of (same_event e) rest then rest else e ∷ rest

-- Several outcomes as one.
unfoldable pub merge : List RunOutcome → RunOutcome
unfolding all_events all_skipped distinct_events same_event
merge outcomes = record {
  events = sort_by event_leb (distinct_events (all_events outcomes));
  skipped = sorted_set (all_skipped outcomes);
  checks_run = sum_of (λ o. o.checks_run) outcomes;
}

-- unique_id.split(".", 1)[0]
before_dot : String → String
before_dot String.[] = String.[]
before_dot (String.◌∷◌ c s) =
    let rest = String.◌∷◌ c (before_dot s) in
    if startswith (String.◌∷◌ c s) "." then String.[] else rest

kind_of : Dict Node → String → String
unfolding before_dot
kind_of nodes unique_id = elim (get unique_id nodes) [
  | none ↦ before_dot unique_id
  | some node ↦ node.resource_type
]

-- (unique id, resource type, status) of every node that an invocation reported on.
reported : Dict Node → List Result → List (String × String × String)
unfolding kind_of
reported nodes [] = []
reported nodes (r ∷ rs) = (r.unique_id, kind_of nodes r.unique_id, r.status) ∷ reported nodes rs

triple_leb : String × String × String → String × String × String → Bool
triple_leb a b =
    if not (a.0 == b.0)
    then str_leb a.0 b.0
    else if not (a.1 == b.1)
    then str_leb a.1 b.1
    else str_leb a.2 b.2

unfoldable pub results : Artifact → Dict Node → List (String × String × String)
unfolding reported triple_leb
results artifact nodes = sort_by triple_leb (reported nodes artifact.results)
