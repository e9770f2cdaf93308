-- ===== src/Cost/Attribution.antt =====
-- src/platform_ops/cost/attribution.py: who pays for each query. Money is a number of the store's quanta, 1e-12
-- dollars, and a month is what `%Y-%m` prints.
pub mod Split
use data_platform_ops.Prelude.{
  ℕ, zero, suc, ◌+◌, ◌-◌, ◌*◌, ◌/◌, String, Bool, true, false, not, ◌&&◌, ◌||◌, Option, none, some,
  List, [], ◌∷◌, contains, if◌then◌else◌, Dict, get, put, values, or_default, ltb, eqb, ◌==◌,
  str_leb, sort_by, sum_of,
}
use data_platform_ops.Metadata.Manifest.{Node}
use data_platform_ops.Metadata.Registry.{Team, DatasetRule, Registry, resolve, team_of}

abbrev pub unattributed : String
unattributed = "unattributed"

abbrev pub platform_team : String
platform_team = "platform"

pub data ActorType : Type 0 where
  dbt ingestion maintenance reconcile dashboard person : ActorType

pub data CostKind : Type 0 where
  production consumption migration : CostKind

-- The fields of `QueryRecord` that decide who pays.
pub record QueryRecord : Type 0 where
  pub query_id : String
  pub actor : String
  pub actor_type : ActorType
  pub node_id : Option String
  pub started_month : String

pub record Attribution : Type 0 where
  pub query_id : String
  pub cost_kind : CostKind
  pub team : String
  pub owner : String
  pub subject : Option String

pub record Owners : Type 0 where
  pub nodes : Dict Node
  pub registry : Registry

unfoldable pub text_or_empty : Option String → String
text_or_empty none = ""
text_or_empty (some s) = s

owner_in : Option DatasetRule → String × String
owner_in none = (unattributed, unattributed)
owner_in (some rule) = (rule.team, rule.owner)

lead_of : Option Team → String
lead_of none = unattributed
lead_of (some team) = elim team.members [ [] ↦ unattributed | lead ∷ rest ↦ lead ]

abbrev stored_types : List String
stored_types = "model" ∷ "seed" ∷ "snapshot" ∷ "source" ∷ []

relations_from : Dict Node → Dict String → Dict String
relations_from [] found = found
relations_from ((id, node) ∷ nodes) found = relations_from nodes (
    if contains node.resource_type stored_types
    then put node.relation node.unique_id found
    else found)

-- `Owners.by_relation`
unfoldable pub by_relation : Owners → Dict String
unfolding relations_from
by_relation owners = relations_from owners.nodes []

module _ (fnmatchcase : String → String → Bool) where
  -- `Owners.of`
  unfoldable pub owner_of : Owners → Option String → String × String
  unfolding owner_in
  owner_of owners none = (unattributed, unattributed)
  owner_of owners (some unique_id) =
      if unique_id == ""
      then (unattributed, unattributed)
      else owner_in (resolve fnmatchcase owners.registry unique_id).rule

  -- `Owners.subject`
  unfoldable pub subject_of : Owners → Option String → Option String
  subject_of owners node_id = elim (get (text_or_empty node_id) owners.nodes) [
    | none ↦ node_id
    | some node ↦ if node.resource_type == "test" then node.attached_node else node_id
  ]

  -- `Owners.platform_lead`
  unfoldable pub platform_lead : Owners → String
  unfolding lead_of
  platform_lead owners = lead_of (get platform_team owners.registry.teams)

  charge : QueryRecord → CostKind → String × String → Option String → Attribution
  charge r kind payer subject = record {
    query_id = r.query_id;
    cost_kind = kind;
    team = payer.0;
    owner = payer.1;
    subject = subject;
  }

  charge_build : Owners → QueryRecord → Option String → Attribution
  unfolding charge
  charge_build owners r none = charge r production (platform_team, platform_lead owners) none
  charge_build owners r (some subject) =
      charge r production (owner_of owners (some subject)) (some subject)

  -- One turn of the loop of `attribute`.
  unfoldable pub attribute_one : Owners → QueryRecord → Attribution
  unfolding charge_build charge
  attribute_one owners r = elim r.actor_type [
    | dbt ↦ charge_build owners r (subject_of owners r.node_id)
    | ingestion ↦ charge r production (owner_of owners r.node_id) r.node_id
    | maintenance ↦ charge r production (owner_of owners r.node_id) r.node_id
    | reconcile ↦ charge r migration (platform_team, platform_lead owners) r.node_id
    | dashboard ↦ charge r consumption (owner_of owners r.node_id) r.node_id
    | person ↦
        charge r consumption
          (or_default unattributed (team_of owners.registry.teams r.actor), r.actor) none
  ]

  attribute_from : List QueryRecord → Owners → Dict Attribution → Dict Attribution
  attribute_from [] owners out = out
  attribute_from (r ∷ records) owners out =
      attribute_from records owners (put r.query_id (attribute_one owners r) out)

  unfoldable pub attribute : List QueryRecord → Owners → Dict Attribution
  unfolding attribute_from
  attribute records owners = attribute_from records owners []

pub record View : Type 0 where
  pub viewed_month : String
  pub exposure : String
  pub person : String

-- Counter()[team] += 1
count_view : String → Dict ℕ → Dict ℕ
count_view team counter = put team (or_default 0 (get team counter) + 1) counter

-- The views of one dashboard in one month, by team. A person outside the registry counts for nobody.
views_of : Registry → String → String → List View → Dict ℕ → Dict ℕ
unfolding count_view
views_of registry exposure month [] counter = counter
views_of registry exposure month (v ∷ views) counter =
    views_of registry exposure month views (elim (team_of registry.teams v.person) [
      | none ↦ counter
      | some team ↦
          if (v.exposure == exposure) && (v.viewed_month == month)
          then count_view team counter
          else counter
    ])

is_dashboard : ActorType → Bool
is_dashboard dashboard = true
is_dashboard _ = false

seen_by : String → Dict ℕ → Dict (Dict ℕ) → Dict (Dict ℕ)
seen_by query_id [] found = found
seen_by query_id (w ∷ seen) found = put query_id (sort_by (λ a b. str_leb a.0 b.0) (w ∷ seen)) found

weights_from : List QueryRecord → List View → Registry → Dict (Dict ℕ) → Dict (Dict ℕ)
unfolding views_of is_dashboard seen_by
weights_from [] views registry found = found
weights_from (r ∷ records) views registry found = weights_from records views registry (
    if is_dashboard r.actor_type
    then seen_by r.query_id (views_of registry (text_or_empty r.node_id) r.started_month views [])
        found
    else found)

unfoldable pub viewer_weights : List QueryRecord → List View → Registry → Dict (Dict ℕ)
unfolding weights_from
viewer_weights records views registry = weights_from records views registry []

-- (usd * n / total).quantize(QUANTUM, ROUND_DOWN) for each weight
unfoldable pub parts_from : ℕ → ℕ → List (String × ℕ) → Dict ℕ → Dict ℕ
parts_from usd total [] parts = parts
parts_from usd total ((team, n) ∷ weights) parts =
    parts_from usd total weights (put team (usd * n / total) parts)

-- min(weights, key=lambda w: (-w[1], w[0]))
unfoldable pub largest : String × ℕ → List (String × ℕ) → String × ℕ
largest best [] = best
largest best (w ∷ weights) =
    largest (if ltb best.1 w.1 || (eqb best.1 w.1 && not (str_leb best.0 w.0)) then w else best)
      weights

pub total_of : List (String × ℕ) → ℕ
total_of weights = sum_of (λ w. w.1) weights

pub sum_values : Dict ℕ → ℕ
sum_values parts = sum_of (λ p. p.1) parts

-- parts[team] += rest
add_to : String → ℕ → Dict ℕ → Dict ℕ
add_to team rest parts = put team (or_default 0 (get team parts) + rest) parts

-- `none` where Python raises: no weights, or weights that add up to nothing.
unfoldable pub split : ℕ → List (String × ℕ) → Option (Dict ℕ)
unfolding total_of sum_values add_to
split usd [] = none
split usd (w ∷ weights) =
    let total = total_of (w ∷ weights) in
    let parts = parts_from usd total (w ∷ weights) [] in
    if eqb total 0 then none else some (add_to (largest w weights).0 (usd - sum_values parts) parts)
