-- ===== src/Incidents/Desk/Assign/Choice.antt =====
-- The incident that a group continues, in `_regroup` of src/platform_ops/incidents/desk.py: what holds of every incident
-- before the run holds of it.
use data_platform_ops.Prelude.{
  ℕ, String, Bool, true, false, Option, none, some, List, [], ◌∷◌, All, find_first, Dict,
  if◌then◌else◌,
}
use data_platform_ops.Metadata.Graph.{Networkx}
use data_platform_ops.Incidents.Grouping.{Group}
use data_platform_ops.Incidents.Policy.{Moment}
use data_platform_ops.Incidents.Desk.Tables.{Incident}
use data_platform_ops.Incidents.Desk.Context.{Context}
use data_platform_ops.Incidents.Desk.Assign.{continued, or_else}

-- The property holds of the incident, if there is one.
pub data Holds (P : Incident → Type 0) : Option Incident → Type 0 where
  nothing : Holds P none
  there : (i : Incident) → P i → Holds P (some i)

Holds-if :
    {P : Incident → Type 0} (b : Bool) {o other : Option Incident}
    → Holds P o
    → Holds P other
    → Holds P (if b then o else other)
Holds-if true p q = p
Holds-if false p q = q

pub find_first-Holds :
    {P : Incident → Type 0} (p : Incident → Bool) (is : List Incident)
    → All P is
    → Holds P (find_first p is)
find_first-Holds p [] h = nothing
find_first-Holds p (j ∷ is) h = Holds-if (p j) (there j h.0) (find_first-Holds p is h.1)

or_else-Holds :
    {P : Incident → Type 0} {o other : Option Incident}
    → Holds P o
    → Holds P other
    → Holds P (or_else o other)
unfolding or_else
or_else-Holds nothing q = q
or_else-Holds (there i h) q = there i h

pub continued-Holds :
    (nx : Networkx) (fnmatchcase : String → String → Bool) (max_open_per_person : ℕ)
    (context : Context) (run_id : String) (at : Moment) (statuses : Dict String)
    (before : List Incident) (P : Incident → Type 0) (group : Group)
    → All P before
    → Holds P (continued nx fnmatchcase max_open_per_person context run_id at statuses before group)
unfolding continued
continued-Holds nx fnmatchcase max_open_per_person context run_id at statuses before P group h =
    or_else-Holds (find_first-Holds _ before h) (
      or_else-Holds (find_first-Holds _ before h)
        (or_else-Holds (find_first-Holds _ before h) (find_first-Holds _ before h)))
