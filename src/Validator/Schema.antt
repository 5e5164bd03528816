-- ===== src/Validator/Schema.antt =====
-- internal/validator/schema.go: the checks of one field, and the fields a complete manifest has.
pub mod Entities
pub mod Contracts
pub mod Written
use works_on_my_whiteboard.Prelude.{
  ℕ, Bool, true, false, not, ◌&&◌, ◌||◌, Option, none, some, List, [], ◌∷◌, ◌++◌, leb, ◌==◌,
  if◌then◌else◌, String, concat_map, is_nil, length,
}
use works_on_my_whiteboard.Prelude.Text.{codes, is_blank, join_text}
use works_on_my_whiteboard.Prelude.Dict.{str_eq}
use works_on_my_whiteboard.Harness.Spec.{is_lower, is_stable_id}
use works_on_my_whiteboard.Diagnostics.{Diagnostic, diagnostic_if}
use works_on_my_whiteboard.Diagnostics.Codes.{
  code_invalid_stable_id, code_status_vocabulary_mismatch, code_complete_contract_empty,
}
use works_on_my_whiteboard.Catalog.{
  CaseManifest, PrincipleManifest, LabManifest, AdapterManifest, CaseBinding, PrincipleBinding,
  RequiredRun, Claim, EvidenceRequirement, lifecycle_status_draft, lifecycle_status_complete,
  lab_kind_scenario, lab_kind_primitive,
}

-- labMetricIDPattern, ^[a-z][a-z0-9]*(?:[._-][a-z0-9]+)*$, after its first letter: whether a letter
-- or a digit has to follow a separator.
abbrev pub is_metric_rest : Bool → List ℕ → Bool
is_metric_rest after_separator [] = not after_separator
is_metric_rest after_separator (c ∷ cs) =
    (is_lower c || leb 48 c && leb c 57) && is_metric_rest false cs
    || (c == 46 || c == 95 || c == 45) && not after_separator && is_metric_rest true cs

abbrev pub is_metric_codes : List ℕ → Bool
is_metric_codes [] = false
is_metric_codes (c ∷ cs) = is_lower c && is_metric_rest false cs

unfoldable pub is_lab_metric_id : String → Bool
is_lab_metric_id s = is_metric_codes (codes s)

unfoldable pub stable_id_diagnostic : String → String → String → List Diagnostic
stable_id_diagnostic entity_id field value =
    diagnostic_if (not (is_stable_id value)) code_invalid_stable_id entity_id
      (join_text field " does not match ^[a-z][a-z0-9-]*$")

unfoldable pub stable_id_diagnostics : String → String → List String → List Diagnostic
stable_id_diagnostics entity_id field values =
    concat_map (λ value. stable_id_diagnostic entity_id field value) values

unfoldable pub lab_metric_id_diagnostic : String → String → List Diagnostic
lab_metric_id_diagnostic entity_id value =
    diagnostic_if (not (is_lab_metric_id value)) code_invalid_stable_id entity_id
      "lab metric id does not match ^[a-z][a-z0-9]*(?:[._-][a-z0-9]+)*$"

unfoldable pub lifecycle_diagnostic : String → String → String → List Diagnostic
lifecycle_diagnostic kind entity_id status =
    diagnostic_if
      (not (str_eq status lifecycle_status_draft || str_eq status lifecycle_status_complete))
      code_status_vocabulary_mismatch entity_id
      (join_text kind " uses an unknown lifecycle status; want draft or complete")

abbrev join_fields : List String → String
join_fields [] = ""
join_fields (field ∷ []) = field
join_fields (field ∷ other ∷ fields) =
    join_text field (join_text ", " (join_fields (other ∷ fields)))

unfoldable pub complete_contract_diagnostic : String → String → List String → List Diagnostic
complete_contract_diagnostic kind entity_id missing =
    diagnostic_if (not (is_nil missing)) code_complete_contract_empty entity_id (
      join_text "complete "
        (join_text kind (join_text " has empty required fields: " (join_fields missing))))

-- The names of missing fields. Those of list items are without the item's index.
unfoldable pub blank : String → String → List String
blank field value = if is_blank value then field ∷ [] else []

unfoldable pub empty : {A : Type 0} → String → List A → List String
empty field [] = field ∷ []
empty field (value ∷ values) = []

unfoldable pub blank_string_items : String → List String → List String
blank_string_items field values = concat_map (λ value. blank field value) values

unfoldable pub missing_claim_fields : List Claim → List String
missing_claim_fields claims =
    concat_map (λ claim. blank "claims.id" claim.id ++ blank "claims.statement" claim.statement)
      claims

unfoldable pub missing_requirement_fields : List EvidenceRequirement → List String
missing_requirement_fields requirements =
    concat_map
      (λ requirement.
        blank "evidence_requirements.claim" requirement.claim
        ++ blank "evidence_requirements.lab" requirement.lab)
      requirements

unfoldable pub missing_complete_case_fields : CaseManifest → List String
missing_complete_case_fields manifest =
    blank "title" manifest.title
    ++ blank "primary_family" manifest.primary_family
    ++ empty "dimensions" manifest.dimensions
    ++ blank_string_items "dimensions" manifest.dimensions
    ++ empty "principles" manifest.principles
    ++ empty "claims" manifest.claims
    ++ empty "labs" manifest.labs
    ++ empty "evidence_requirements" manifest.evidence_requirements
    ++ empty "sources" manifest.sources
    ++ missing_claim_fields manifest.claims
    ++ missing_requirement_fields manifest.evidence_requirements
    ++ blank_string_items "principles" manifest.principles
    ++ blank_string_items "labs" manifest.labs
    ++ blank_string_items "sources" manifest.sources

unfoldable pub missing_complete_principle_fields : PrincipleManifest → List String
missing_complete_principle_fields manifest =
    blank "title" manifest.title
    ++ empty "dimensions" manifest.dimensions
    ++ blank_string_items "dimensions" manifest.dimensions
    ++ empty "claims" manifest.claims
    ++ empty "labs" manifest.labs
    ++ empty "evidence_requirements" manifest.evidence_requirements
    ++ empty "sources" manifest.sources
    ++ missing_claim_fields manifest.claims
    ++ missing_requirement_fields manifest.evidence_requirements
    ++ blank_string_items "labs" manifest.labs
    ++ blank_string_items "sources" manifest.sources

unfoldable pub missing_case_binding_fields : CaseBinding → List String
missing_case_binding_fields binding =
    blank "case_bindings.id" binding.id
    ++ blank "case_bindings.case_id" binding.case_id
    ++ blank "case_bindings.claim" binding.claim
    ++ blank "case_bindings.workload" binding.workload
    ++ empty "case_bindings.assertions" binding.assertions
    ++ blank_string_items "case_bindings.assertions" binding.assertions

unfoldable pub missing_principle_binding_fields : PrincipleBinding → List String
missing_principle_binding_fields binding =
    blank "principle_bindings.id" binding.id
    ++ blank "principle_bindings.principle_id" binding.principle_id
    ++ blank "principle_bindings.claim" binding.claim
    ++ blank "principle_bindings.workload" binding.workload
    ++ empty "principle_bindings.assertions" binding.assertions
    ++ blank_string_items "principle_bindings.assertions" binding.assertions

-- A nil slice of faults is missing, an empty one is not.
unfoldable pub missing_fault_fields : Option (List String) → List String
missing_fault_fields none = "required_runs.faults" ∷ []
missing_fault_fields (some faults) = blank_string_items "required_runs.faults" faults

unfoldable pub missing_run_fields : RequiredRun → List String
missing_run_fields run =
    blank "required_runs.id" run.id
    ++ blank "required_runs.binding" run.binding
    ++ blank "required_runs.baseline" run.baseline
    ++ empty "required_runs.variants" run.variants
    ++ blank_string_items "required_runs.variants" run.variants
    ++ blank "required_runs.workload" run.workload
    ++ missing_fault_fields run.faults
    ++ concat_map (λ adapter. blank "required_runs.adapters.id" adapter.id) run.adapters

-- The bindings that a lab of a kind needs.
unfoldable pub missing_bindings : LabManifest → List String
missing_bindings manifest =
    if str_eq manifest.kind lab_kind_scenario
    then empty "case_bindings" manifest.case_bindings
    else if str_eq manifest.kind lab_kind_primitive
    then empty "principle_bindings" manifest.principle_bindings
    else []

unfoldable pub missing_complete_lab_fields : LabManifest → List String
missing_complete_lab_fields manifest =
    empty "implementations" manifest.implementations
    ++ empty "required_runs" manifest.required_runs
    ++ empty "metrics" manifest.metrics
    ++ empty "sources" manifest.sources
    ++ missing_bindings manifest
    ++ concat_map (λ binding. missing_case_binding_fields binding) manifest.case_bindings
    ++ concat_map (λ binding. missing_principle_binding_fields binding) manifest.principle_bindings
    ++ concat_map (λ run. missing_run_fields run) manifest.required_runs
    ++ blank_string_items "implementations" manifest.implementations
    ++ blank_string_items "metrics" manifest.metrics
    ++ blank_string_items "sources" manifest.sources

unfoldable pub missing_complete_adapter_fields : AdapterManifest → List String
missing_complete_adapter_fields manifest =
    blank "title" manifest.title
    ++ blank "interface" manifest.interface
    ++ blank "runtime" manifest.runtime
    ++ empty "sources" manifest.sources
    ++ blank_string_items "sources" manifest.sources
