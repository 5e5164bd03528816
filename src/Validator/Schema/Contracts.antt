-- ===== src/Validator/Schema/Contracts.antt =====
-- internal/validator/schema.go: the schema of a whole catalog.
use works_on_my_whiteboard.Prelude.{Option, none, some, List, [], ◌∷◌, ◌++◌, concat_map}
use works_on_my_whiteboard.Diagnostics.{Diagnostic, error_diagnostic}
use works_on_my_whiteboard.Diagnostics.Codes.{code_dependency_incomplete}
use works_on_my_whiteboard.Catalog.{Catalog}
use works_on_my_whiteboard.Validator.{
  sorted_entries, case_manifests_by_id, principle_manifests_by_id, lab_manifests_by_id,
  adapter_manifests_by_id,
}
use works_on_my_whiteboard.Validator.Schema.Entities.{
  scope_family_schema, scope_case_schema, exclusion_schema, alias_schema, source_schema,
  case_schema, principle_schema, lab_schema, adapter_schema,
}

unfoldable pub validate_schema_contracts : Option Catalog → List Diagnostic
validate_schema_contracts none =
    error_diagnostic code_dependency_incomplete "" "catalog is nil" ∷ []
validate_schema_contracts (some c) =
    concat_map (λ family. scope_family_schema family) c.scope.families
    ++ concat_map (λ scope_case. scope_case_schema scope_case) c.scope.cases
    ++ concat_map (λ exclusion. exclusion_schema exclusion) c.scope.exclusions
    ++ concat_map (λ alias. alias_schema alias) c.aliases.entries
    ++ concat_map (λ entry. source_schema entry.1) (sorted_entries c.sources)
    ++ concat_map (λ entry. case_schema entry.1) (sorted_entries (case_manifests_by_id c))
    ++ concat_map (λ entry. principle_schema entry.1) (sorted_entries (principle_manifests_by_id c))
    ++ concat_map (λ entry. lab_schema entry.1) (sorted_entries (lab_manifests_by_id c))
    ++ concat_map (λ entry. adapter_schema entry.1) (sorted_entries (adapter_manifests_by_id c))
