-- ===== src/Validator/Matrix.antt =====
-- internal/validator/matrix.go: what a run of a lab needs to take part in the matrix.
pub mod Build
pub mod Unique
pub mod Runs
pub mod Invariant
pub mod Cells
use works_on_my_whiteboard.Prelude.{
  ℕ, Bool, true, false, not, ◌&&◌, ◌||◌, Option, none, some, List, [], ◌∷◌, ◌++◌, map, ltb,
  if◌then◌else◌, String, keep_if, concat_map, is_nil, length,
}
use works_on_my_whiteboard.Prelude.Dict.{string_key, str_eq, lookup}
use works_on_my_whiteboard.Diagnostics.{Diagnostic, diagnostic_if}
use works_on_my_whiteboard.Diagnostics.Codes.{
  code_invalid_run_binding, code_orphaned_lab, code_binding_workload_mismatch,
  code_unknown_implementation, code_missing_required_adapter, code_dependency_incomplete,
}
use works_on_my_whiteboard.Catalog.{
  Catalog, LabManifest, AdapterManifest, CaseBinding, PrincipleBinding, RequiredRun,
  AdapterRequirement, lifecycle_status_complete, entity_kind_case, entity_kind_principle,
  lab_kind_scenario, lab_kind_primitive,
}
use works_on_my_whiteboard.Validator.{contains, add, make_string_set, sorted, resolve_id}
use works_on_my_whiteboard.Validator.References.{ClaimOwner, claim_owned_by}
use works_on_my_whiteboard.Validator.Schema.{missing_complete_adapter_fields}

pub record MatrixBinding : Type 0 where
  pub id : String
  pub kind : String
  pub owner_id : String
  pub claim_id : String
  pub workload : String
  pub assertions : List String
  pub claim_valid : Bool
  pub used : Bool

unfoldable pub collect_matrix_bindings : LabManifest → List MatrixBinding
collect_matrix_bindings lab =
    map
      (λ source. record {
        id = source.id;
        kind = entity_kind_case;
        owner_id = source.case_id;
        claim_id = source.claim;
        workload = source.workload;
        assertions = source.assertions;
        claim_valid = false;
        used = false;
      })
      lab.case_bindings
    ++ map
        (λ source. record {
          id = source.id;
          kind = entity_kind_principle;
          owner_id = source.principle_id;
          claim_id = source.claim;
          workload = source.workload;
          assertions = source.assertions;
          claim_valid = false;
          used = false;
        })
        lab.principle_bindings

-- bindingsByID[id]
abbrev pub bindings_of : List MatrixBinding → String → List MatrixBinding
bindings_of bindings id = keep_if (λ binding. str_eq binding.id id) bindings

-- The texts that stand more than once, sorted.
unfoldable pub repeated : List String → List String
repeated ids =
    keep_if (λ id. ltb 1 (length (keep_if (λ other. str_eq other id) ids)))
      (sorted (make_string_set ids))

-- The assignment to binding.claimValid.
abbrev pub with_claim : Catalog → List (String × ClaimOwner) → MatrixBinding → MatrixBinding
with_claim c owners binding = record binding {
  claim_valid =
      claim_owned_by owners binding.claim_id binding.kind
        (resolve_id c binding.kind binding.owner_id);
}

unfoldable pub binding_kind_matches_lab : String → String → Bool
binding_kind_matches_lab kind lab_kind =
    str_eq kind entity_kind_case && str_eq lab_kind lab_kind_scenario
    || str_eq kind entity_kind_principle && str_eq lab_kind lab_kind_primitive

-- `diagnostics` and `runValid` of one run.
pub record Checked : Type 0 where
  pub diagnostics : List Diagnostic
  pub valid : Bool

abbrev pub accepted : Checked
accepted = record { diagnostics = []; valid = true }

-- A diagnostic, which makes the run invalid.
abbrev pub refuse : Bool → String → String → String → Checked
refuse bad code lab_id message = record {
  diagnostics = diagnostic_if bad code lab_id message;
  valid = not bad;
}

abbrev pub and_checked : Checked → Checked → Checked
and_checked a b = record {
  diagnostics = a.diagnostics ++ b.diagnostics;
  valid = a.valid && b.valid;
}

-- The one binding that a run names.
unfoldable pub resolved_binding : String → List MatrixBinding → Option MatrixBinding
resolved_binding name [] = none
resolved_binding name (binding ∷ []) = if str_eq name "" then none else some binding
resolved_binding name (binding ∷ other ∷ bindings) = none

unfoldable pub check_binding : LabManifest → RequiredRun → Option MatrixBinding → Checked
check_binding lab run none =
    refuse true code_invalid_run_binding lab.id
      "required run binding does not resolve to exactly one"
check_binding lab run (some binding) =
    and_checked
      (refuse (not (binding_kind_matches_lab binding.kind lab.kind)) code_orphaned_lab lab.id
        "required run resolves to the wrong binding kind")
      (and_checked (record { diagnostics = []; valid = binding.claim_valid })
        (refuse (not (str_eq run.workload binding.workload)) code_binding_workload_mismatch lab.id
          "required run workload differs from binding workload"))

unfoldable pub check_variants : LabManifest → List String → List String → Checked
check_variants lab seen [] = accepted
check_variants lab seen (variant ∷ variants) =
    and_checked
      (refuse (not (contains variant (make_string_set lab.implementations)))
        code_unknown_implementation lab.id "required run variant is outside implementations")
      (and_checked
        (refuse (contains variant seen) code_invalid_run_binding lab.id
          "required run repeats implementation as a baseline or variant")
        (check_variants lab (add variant seen) variants))

-- An adapter that is required. One that is incomplete is a fault of a complete lab only.
unfoldable pub check_adapter : LabManifest → Option AdapterManifest → Checked
check_adapter lab none =
    refuse true code_missing_required_adapter lab.id "required run needs complete adapter"
check_adapter lab (some adapter) =
    if not (str_eq adapter.status lifecycle_status_complete)
    then refuse (str_eq lab.status lifecycle_status_complete) code_dependency_incomplete lab.id
        "complete lab required run needs complete adapter"
    else record { diagnostics = []; valid = is_nil (missing_complete_adapter_fields adapter) }

unfoldable pub check_adapters :
    LabManifest → List (String × AdapterManifest) → List String → List AdapterRequirement → Checked
check_adapters lab adapters seen [] = accepted
check_adapters lab adapters seen (requirement ∷ requirements) =
    let one = check_adapter lab (lookup requirement.id adapters) in
    and_checked
      (refuse (contains requirement.id seen) code_invalid_run_binding lab.id
        "required run repeats adapter")
      (and_checked (if requirement.required then one else accepted)
        (check_adapters lab adapters (add requirement.id seen) requirements))

-- The checks of one run, in order.
unfoldable pub check_run :
    LabManifest → List (String × AdapterManifest) → Option MatrixBinding → RequiredRun → Checked
check_run lab adapters binding run =
    and_checked
      (record {
        diagnostics = [];
        valid = not (contains run.id (repeated (map (λ other. other.id) lab.required_runs)));
      })
      (and_checked (check_binding lab run binding) (
        and_checked
          (refuse (not (contains run.baseline (make_string_set lab.implementations)))
            code_unknown_implementation lab.id "required run baseline is outside implementations")
          (and_checked (check_variants lab (make_string_set (run.baseline ∷ [])) run.variants)
            (check_adapters lab adapters [] run.adapters))))
