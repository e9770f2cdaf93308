-- ===== src/Metadata/Bootstrap/Rules.antt =====
-- `_model_rules` and `starter_rules` of src/platform_ops/metadata/bootstrap.py: the rules in their order, `none` where a
-- source's id has too few parts (the code raises) or where `_cover` does not end within the fuel.
use data_platform_ops.Prelude.{
  ℕ, ◌+◌, String, Bool, not, ◌&&◌, ◌||◌, Option, none, some, List, [], ◌∷◌, ◌++◌, map, contains,
  keep, length, if◌then◌else◌, Dict, get, keys, values, or_default, append_at, sorted_set, sort_by,
  str_leb, str_ltb, ltb, ◌==◌, add_text,
}
use data_platform_ops.Metadata.Manifest.{Node, owned_types}
use data_platform_ops.Metadata.Bootstrap.{StarterRule, todo, cover}

rule_for : String → String → StarterRule
rule_for pattern comment = record { pattern = pattern; comment = comment; owner = todo }

-- The folder's comment stands at its first rule.
label_first : String → List String → List StarterRule
unfolding rule_for
label_first label [] = []
label_first label (p ∷ ps) = rule_for p label ∷ map (λ q. rule_for q "") ps

folders_from : (String → String) → List Node → Dict (List Node) → Dict (List Node)
folders_from parent_of [] folders = folders
folders_from parent_of (n ∷ ns) folders =
    folders_from parent_of ns (append_at (parent_of n.path) n folders)

-- 's' if n > 1 else ''
plural : ℕ → String
plural n = if ltb 1 n then "s" else ""

append_rules : Option (List StarterRule) → Option (List StarterRule) → Option (List StarterRule)
append_rules none ys = none
append_rules (some xs) none = none
append_rules (some xs) (some ys) = some (xs ++ ys)

-- The count of each (package, source name), in the order of appearance.
count_source : String × String → List ((String × String) × ℕ) → List ((String × String) × ℕ)
count_source k [] = (k, 1) ∷ []
count_source k ((j, n) ∷ sources) =
    let rest = count_source k sources in
    if (j.0 == k.0) && (j.1 == k.1) then (j, n + 1) ∷ sources else (j, n) ∷ rest

source_leb : (String × String) × ℕ → (String × String) × ℕ → Bool
source_leb a b = str_ltb a.0.0 b.0.0 || ((a.0.0 == b.0.0) && str_leb a.0.1 b.0.1)

source_rule : (ℕ → String) → (String × String) × ℕ → StarterRule
unfolding rule_for plural
source_rule str ((package_name, source_name), n) =
    rule_for (add_text "source." (add_text package_name (add_text "." (add_text source_name ".*"))))
      (add_text "source " (
        add_text source_name
          (add_text " (" (add_text (str n) (add_text " table" (add_text (plural n) ")"))))))

of_type : String → List Node → List Node
of_type resource_type ns = keep (λ n. n.resource_type == resource_type) ns

-- f"{resource_type}.{package}.*", for each package with such a node
package_rules : String → (String → String) → List Node → List StarterRule
unfolding rule_for of_type
package_rules resource_type comment ns =
    map (λ p. rule_for (add_text resource_type (add_text "." (add_text p ".*"))) (comment p))
      (sorted_set (map (λ n. n.package_name) ns))

exposure_rule : Node → StarterRule
exposure_rule n = record {
  pattern = n.unique_id;
  comment = add_text "exposure " n.name;
  owner = elim n.owner_name [ none ↦ todo | some owner ↦ (if owner == "" then todo else owner) ];
}

-- The rules of the exposures, by their ids.
exposure_rules : List Node → List StarterRule
unfolding exposure_rule
exposure_rules ns = map exposure_rule (sort_by (λ a b. str_leb a.unique_id b.unique_id) ns)

module _ (fnmatchcase : String → String → Bool) (parent_of : String → String)
    (split_source : String → Option (String × String)) (str : ℕ → String) where
  folder_rules : ℕ → List String → String → Dict (List Node) → String → Option (List StarterRule)
  unfolding label_first plural
  folder_rules fuel all_ids root folders folder =
      let members = or_default [] (get folder folders) in
      let names = sort_by str_leb (map (λ n. n.name) members) in
      let label = add_text folder (
        add_text " (" (
          add_text (str (length names))
            (add_text " model" (add_text (plural (length names)) ")")))) in
      elim (cover fnmatchcase all_ids root fuel names 0) [
        | none ↦ none
        | some patterns ↦ some (label_first label patterns)
      ]

  all_folders :
      ℕ → List String → String → Dict (List Node) → List String → Option (List StarterRule)
  unfolding folder_rules append_rules
  all_folders fuel all_ids root folders [] = some []
  all_folders fuel all_ids root folders (folder ∷ rest) =
      append_rules (folder_rules fuel all_ids root folders folder)
        (all_folders fuel all_ids root folders rest)

  unfoldable pub model_rules : ℕ → List Node → String → Option (List StarterRule)
  unfolding all_folders folders_from
  model_rules fuel models root =
      let folders = folders_from parent_of models [] in
      all_folders fuel (sort_by str_leb (map (λ n. n.unique_id) models)) root folders
        (sorted_set (keys folders))

  count_sources : List Node → List ((String × String) × ℕ) → Option (List ((String × String) × ℕ))
  unfolding count_source
  count_sources [] sources = some sources
  count_sources (n ∷ ns) sources = elim (split_source n.unique_id) [
    | none ↦ none
    | some k ↦ count_sources ns (count_source k sources)
  ]

  source_rules : List Node → Option (List StarterRule)
  unfolding count_sources source_leb source_rule
  source_rules ns = elim (count_sources ns []) [
    | none ↦ none
    | some sources ↦ some (map (source_rule str) (sort_by source_leb sources))
  ]

  pub starter_rules : ℕ → Dict Node → String → Option (List StarterRule)
  unfolding source_rules of_type package_rules append_rules exposure_rules
  starter_rules fuel nodes root =
      let owned = keep (λ n. contains n.resource_type owned_types) (values nodes) in
      let models = of_type "model" owned in
      append_rules (source_rules (of_type "source" owned)) (
        append_rules
          (some (
            package_rules "seed" (add_text "seeds of ") (of_type "seed" owned)
            ++ package_rules "snapshot" (add_text "snapshots of ") (of_type "snapshot" owned)))
          (append_rules (model_rules fuel (keep (λ n. n.package_name == root) models) root) (
            some (
              package_rules "model" (add_text "models from the installed package ")
                (keep (λ n. not (n.package_name == root)) models)
              ++ exposure_rules (of_type "exposure" owned)))))
