-- ===== src/Metadata/Manifest.antt =====
-- src/platform_ops/metadata/manifest.py: the typed view of a dbt node that the other parts read.
use data_platform_ops.Prelude.{String, Option, List, [], ◌∷◌}

-- `relation` joins the schema and the alias or name.
pub record Node : Type 0 where
  pub unique_id : String
  pub resource_type : String
  pub name : String
  pub depends_on : List String
  pub owner_name : Option String
  pub package_name : String
  pub relation : String
  pub attached_node : Option String
  pub test_columns : List String
  pub path : String

abbrev pub owned_types : List String
owned_types = "source" ∷ "model" ∷ "exposure" ∷ "seed" ∷ "snapshot" ∷ []
