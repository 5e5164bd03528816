-- ===== src/Validator/Matrix/Build.antt =====
-- internal/validator/matrix.go: the cells of the required matrix.
use works_on_my_whiteboard.Prelude.{
  Bool, true, false, not, ◌&&◌, ◌||◌, Option, none, some, List, [], ◌∷◌, ◌++◌, map, if◌then◌else◌,
  String, keep_if, any_of, concat_map, fold_left, is_nil,
}
use works_on_my_whiteboard.Prelude.Dict.{string_key, str_eq}
use works_on_my_whiteboard.Prelude.Sort.{stable_sort}
use works_on_my_whiteboard.Prelude.Lex.{lex_by}
use works_on_my_whiteboard.Diagnostics.{
  Diagnostic, error_diagnostic, diagnostic_if, sort_diagnostics,
}
use works_on_my_whiteboard.Diagnostics.Codes.{
  code_duplicate_binding_id, code_foreign_claim, code_duplicate_required_run,
  code_invalid_run_binding, code_unused_binding,
}
use works_on_my_whiteboard.Catalog.{
  Catalog, LabManifest, RequiredRun, lifecycle_status_complete, lab_kind_scenario,
  lab_kind_primitive,
}
use works_on_my_whiteboard.Validator.{
  contains, make_string_set, sorted_entries, lab_manifests_by_id, adapter_manifests_by_id,
}
use works_on_my_whiteboard.Validator.Coverage.{compute_coverage}
use works_on_my_whiteboard.Validator.References.{build_claim_owners}
use works_on_my_whiteboard.Validator.Schema.{missing_complete_lab_fields}
use works_on_my_whiteboard.Validator.Schema.Entities.{faults_or_nil}
use works_on_my_whiteboard.Validator.Matrix.{
  MatrixBinding, collect_matrix_bindings, bindings_of, repeated, with_claim, resolved_binding,
  check_run,
}

pub record MatrixCell : Type 0 where
  pub lab_id : String
  pub required_run_id : String
  pub binding_id : String
  pub claim_id : String
  pub role : String
  pub implementation_id : String
  pub adapter_id : String
  pub workload : String
  pub faults : List String
  pub assertion_ids : List String

abbrev pub matrix_cell_identity : MatrixCell → List String
matrix_cell_identity cell =
    cell.lab_id ∷ cell.required_run_id ∷ cell.binding_id ∷ cell.claim_id ∷ cell.implementation_id
    ∷ cell.adapter_id ∷ []

pub record MatrixChoice : Type 0 where
  pub role : String
  pub implementation_id : String
  pub adapter_id : String

unfoldable pub matrix_choices : RequiredRun → List MatrixChoice
matrix_choices run =
    record { role = "baseline"; implementation_id = run.baseline; adapter_id = "" }
      ∷ map (λ id. record { role = "variant"; implementation_id = id; adapter_id = "" })
          run.variants
    ++ map
        (λ requirement. record {
          role = "adapter";
          implementation_id = requirement.id;
          adapter_id = requirement.id;
        })
        (keep_if (λ requirement. requirement.required) run.adapters)

abbrev pub matrix_cell : LabManifest → RequiredRun → MatrixBinding → MatrixChoice → MatrixCell
matrix_cell lab run binding choice = record {
  lab_id = lab.id;
  required_run_id = run.id;
  binding_id = binding.id;
  claim_id = binding.claim_id;
  role = choice.role;
  implementation_id = choice.implementation_id;
  adapter_id = choice.adapter_id;
  workload = run.workload;
  faults = faults_or_nil run.faults;
  assertion_ids = binding.assertions;
}

-- The variables that the loop over the labs changes.
pub record Building : Type 0 where
  pub matrix : List MatrixCell
  pub seen_cells : List (List String)
  pub diagnostics : List Diagnostic

abbrev pub report : List Diagnostic → Building → Building
report found st = record st { diagnostics = st.diagnostics ++ found }

abbrev pub texts_eq : List String → List String → Bool
texts_eq [] [] = true
texts_eq [] (t ∷ ts) = false
texts_eq (s ∷ ss) [] = false
texts_eq (s ∷ ss) (t ∷ ts) = str_eq s t && texts_eq ss ts

unfoldable pub add_cell : MatrixCell → Building → Building
add_cell cell st =
    let key = matrix_cell_identity cell in
    if any_of (λ seen. texts_eq seen key) st.seen_cells
    then report
        (error_diagnostic code_invalid_run_binding cell.lab_id
            "required run produces duplicate six-field matrix key"
          ∷ [])
        st
    else record {
      matrix = st.matrix ++ cell ∷ [];
      seen_cells = key ∷ st.seen_cells;
      diagnostics = st.diagnostics;
    }

-- The cells of a run whose binding is resolved.
unfoldable pub add_choices : LabManifest → RequiredRun → Option MatrixBinding → Building → Building
add_choices lab run none st = st
add_choices lab run (some binding) st =
    fold_left (λ s choice. add_cell (matrix_cell lab run binding choice) s) st (matrix_choices run)

unfoldable pub lab_matrix_eligible : Catalog → LabManifest → Bool
lab_matrix_eligible c lab =
    let coverage = compute_coverage (some c) in
    (contains lab.id (make_string_set coverage.required_scenario_labs)
        && str_eq lab.kind lab_kind_scenario
      || contains lab.id (make_string_set coverage.required_primitive_labs)
        && str_eq lab.kind lab_kind_primitive)
    && str_eq lab.status lifecycle_status_complete
    && is_nil (missing_complete_lab_fields lab)

-- binding.used = true, of the one binding with the ID.
abbrev pub mark_used : Option MatrixBinding → List MatrixBinding → List MatrixBinding
mark_used none bindings = bindings
mark_used (some binding) bindings =
    map (λ other. if str_eq other.id binding.id then record other { used = true } else other)
      bindings

-- The loop over the runs of a lab.
unfoldable pub add_runs :
    Catalog
    → LabManifest
    → List RequiredRun
    → List MatrixBinding × Building
    → List MatrixBinding × Building
add_runs c lab [] st = st
add_runs c lab (run ∷ runs) (bindings, st) =
    let binding = resolved_binding run.binding (bindings_of bindings run.binding) in
    let checked = check_run lab (adapter_manifests_by_id c) binding run in
    let reported = report checked.diagnostics st in
    let extended = add_choices lab run binding reported in
    add_runs c lab runs (
      mark_used binding bindings,
      if checked.valid && lab_matrix_eligible c lab then extended else reported,
    )

unfoldable pub binding_diagnostics : LabManifest → List MatrixBinding → List Diagnostic
binding_diagnostics lab bindings =
    map
      (λ id.
        error_diagnostic code_duplicate_binding_id lab.id "lab declares binding ID more than once")
      (repeated (map (λ binding. binding.id) bindings))
    ++ concat_map
        (λ binding.
          diagnostic_if (not binding.claim_valid) code_foreign_claim lab.id
            "lab binding claim is absent or not owned")
        bindings
    ++ map
        (λ id.
          error_diagnostic code_duplicate_required_run lab.id
            "lab declares required run ID more than once")
        (repeated (map (λ run. run.id) lab.required_runs))

abbrev pub unused_diagnostics : LabManifest → List MatrixBinding → List Diagnostic
unused_diagnostics lab bindings =
    concat_map
      (λ binding.
        diagnostic_if (not binding.used) code_unused_binding lab.id
          "lab binding is not consumed by any required run")
      bindings

unfoldable pub add_lab : Catalog → LabManifest → Building → Building
add_lab c lab st =
    let bindings = map (with_claim c (build_claim_owners c)) (collect_matrix_bindings lab) in
    let (used, after_runs) =
      add_runs c lab lab.required_runs (bindings, report (binding_diagnostics lab bindings) st) in
    report (unused_diagnostics lab used) after_runs

-- By the identity's fields, then the role.
abbrev pub matrix_order : List (MatrixCell → String)
matrix_order =
    (λ cell. cell.lab_id)
    ∷ (λ cell. cell.required_run_id)
    ∷ (λ cell. cell.binding_id)
    ∷ (λ cell. cell.claim_id)
    ∷ (λ cell. cell.implementation_id)
    ∷ (λ cell. cell.adapter_id)
    ∷ (λ cell. cell.role)
    ∷ []

unfoldable pub add_labs : Catalog → Building
add_labs c =
    fold_left (λ st entry. add_lab c entry.1 st)
      (record { matrix = []; seen_cells = []; diagnostics = [] })
      (sorted_entries (lab_manifests_by_id c))

unfoldable pub build_required_matrix : Option Catalog → List MatrixCell × List Diagnostic
build_required_matrix none = ([], [])
build_required_matrix (some c) =
    let built = add_labs c in
    (stable_sort (lex_by matrix_order) built.matrix, sort_diagnostics built.diagnostics)
