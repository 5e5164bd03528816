-- ===== src/Validator/Report.antt =====
-- internal/validator/validate.go: the report of a validation.
pub mod Scope
pub mod Clean
pub mod Release
use works_on_my_whiteboard.Prelude.{
  Bool, false, not, ◌&&◌, ◌||◌, Option, none, some, List, [], ◌∷◌, ◌++◌, if◌then◌else◌, String,
  concat_map, is_nil,
}
use works_on_my_whiteboard.Prelude.Dict.{string_key, str_eq, lookup}
use works_on_my_whiteboard.Diagnostics.{
  Diagnostic, diagnostic_if, sort_diagnostics, mode_development, mode_release,
}
use works_on_my_whiteboard.Diagnostics.Codes.{
  code_status_vocabulary_mismatch, code_release_scope_incomplete, code_release_family_mismatch,
}
use works_on_my_whiteboard.Catalog.{Catalog, ScopeCase}
use works_on_my_whiteboard.Validator.{insert_new, sorted_entries, case_manifests_by_id}
use works_on_my_whiteboard.Validator.Coverage.{Coverage, is_complete, compute_coverage}
use works_on_my_whiteboard.Validator.Graph.{validate_dependency_graph}
use works_on_my_whiteboard.Validator.References.Labs.{validate_references}
use works_on_my_whiteboard.Validator.Schema.Contracts.{validate_schema_contracts}
use works_on_my_whiteboard.Validator.Matrix.Build.{MatrixCell, build_required_matrix}

pub record Report : Type 0 where
  pub diagnostics : List Diagnostic
  pub coverage : Coverage
  pub matrix : List MatrixCell

-- scopeFamilies, the family of the first case of each ID.
unfoldable pub scope_families : List (String × String) → List ScopeCase → List (String × String)
scope_families known [] = known
scope_families known (scope_case ∷ cases) =
    scope_families (insert_new scope_case.id scope_case.primary_family known) cases

abbrev pub is_other_family : Option String → String → Bool
is_other_family none family = false
is_other_family (some expected) family = not (str_eq family expected)

unfoldable pub validate_release_families : Option Catalog → List Diagnostic
validate_release_families none = []
validate_release_families (some c) =
    concat_map
      (λ entry.
        diagnostic_if
          (is_complete entry.1
            && is_other_family (lookup entry.1.id (scope_families [] c.scope.cases))
                entry.1.primary_family)
          code_release_family_mismatch entry.1.id "release case has another primary family")
      (sorted_entries (case_manifests_by_id c))

unfoldable pub release_scope_diagnostics : Coverage → List Diagnostic
release_scope_diagnostics coverage =
    diagnostic_if
      (not (is_nil coverage.missing_case_ids) || not (is_nil coverage.unexpected_case_ids))
      code_release_scope_incomplete "" "release scope incomplete"

unfoldable pub mode_diagnostics : Option Catalog → Coverage → String → List Diagnostic
mode_diagnostics c coverage mode =
    let released = release_scope_diagnostics coverage ++ validate_release_families c in
    diagnostic_if (not (str_eq mode mode_development) && not (str_eq mode mode_release))
      code_status_vocabulary_mismatch "" "unknown validation mode; want development or release"
    ++ (if str_eq mode mode_release then released else [])

-- `is_direct_https` is what url.Parse of package net/url says.
unfoldable pub validate : (String → Bool) → Option Catalog → String → Report
validate is_direct_https c mode =
    let coverage = compute_coverage c in
    let (matrix, matrix_diagnostics) = build_required_matrix c in
    record {
      diagnostics = sort_diagnostics (
          validate_schema_contracts c
          ++ validate_references is_direct_https c
          ++ validate_dependency_graph c coverage mode
          ++ matrix_diagnostics
          ++ mode_diagnostics c coverage mode);
      coverage = coverage;
      matrix = matrix;
    }
