-- ===== src/Validator/Schema/Entities.antt =====
-- internal/validator/schema.go: the schema of a scope, a case, a principle, a lab and an adapter.
use works_on_my_whiteboard.Prelude.{
  not, ◌&&◌, Option, none, some, List, [], ◌++◌, map, if◌then◌else◌, String, concat_map,
}
use works_on_my_whiteboard.Prelude.Dict.{str_eq}
use works_on_my_whiteboard.Diagnostics.{Diagnostic, diagnostic_if}
use works_on_my_whiteboard.Diagnostics.Codes.{code_unknown_family, code_unknown_reference}
use works_on_my_whiteboard.Catalog.{
  CaseManifest, PrincipleManifest, LabManifest, AdapterManifest, CaseBinding, PrincipleBinding,
  RequiredRun, ScopeFamily, ScopeCase, ScopeExclusion, SourceRecord, lifecycle_status_complete,
  lab_kind_scenario, lab_kind_primitive, family_ids, dimension_ids,
}
use works_on_my_whiteboard.Alias.{Alias}
use works_on_my_whiteboard.Validator.{contains, make_string_set}
use works_on_my_whiteboard.Validator.Schema.{
  stable_id_diagnostic, stable_id_diagnostics, lab_metric_id_diagnostic, lifecycle_diagnostic,
  complete_contract_diagnostic, missing_complete_case_fields, missing_complete_principle_fields,
  missing_complete_lab_fields, missing_complete_adapter_fields,
}

unfoldable pub scope_family_schema : ScopeFamily → List Diagnostic
scope_family_schema family =
    stable_id_diagnostic family.id "scope family id" family.id
    ++ diagnostic_if (not (contains family.id (make_string_set family_ids))) code_unknown_family
        family.id "scope family is not in the approved family registry"

unfoldable pub scope_case_schema : ScopeCase → List Diagnostic
scope_case_schema scope_case =
    stable_id_diagnostic scope_case.id "scope case id" scope_case.id
    ++ stable_id_diagnostic scope_case.id "scope case primary_family" scope_case.primary_family

unfoldable pub exclusion_schema : ScopeExclusion → List Diagnostic
exclusion_schema exclusion =
    stable_id_diagnostic exclusion.id "scope exclusion id" exclusion.id
    ++ stable_id_diagnostic exclusion.id "scope exclusion canonical_case_id"
        exclusion.canonical_case_id

unfoldable pub alias_schema : Alias → List Diagnostic
alias_schema alias =
    stable_id_diagnostic alias.from "alias from" alias.from
    ++ stable_id_diagnostic alias.from "alias to" alias.to

unfoldable pub source_schema : SourceRecord → List Diagnostic
source_schema source =
    stable_id_diagnostic source.id "source id" source.id
    ++ stable_id_diagnostic source.id "source kind" source.kind

unfoldable pub dimension_diagnostics : String → String → List String → List Diagnostic
dimension_diagnostics entity_id kind dimensions =
    concat_map
      (λ id.
        stable_id_diagnostic entity_id kind id
        ++ diagnostic_if (not (contains id (make_string_set dimension_ids))) code_unknown_reference
            entity_id "entity references unknown dimension")
      dimensions

-- The diagnostic of a complete manifest with fields missing.
abbrev pub complete_contract : String → String → String → List String → List Diagnostic
complete_contract kind entity_id status missing =
    let diagnostics = complete_contract_diagnostic kind entity_id missing in
    if str_eq status lifecycle_status_complete then diagnostics else []

unfoldable pub case_schema : CaseManifest → List Diagnostic
case_schema manifest =
    stable_id_diagnostic manifest.id "case id" manifest.id
    ++ stable_id_diagnostic manifest.id "case primary_family" manifest.primary_family
    ++ stable_id_diagnostics manifest.id "case secondary_families reference"
        manifest.secondary_families
    ++ dimension_diagnostics manifest.id "case dimension reference" manifest.dimensions
    ++ stable_id_diagnostics manifest.id "case principle reference" manifest.principles
    ++ stable_id_diagnostics manifest.id "case claim id" (map (λ claim. claim.id) manifest.claims)
    ++ stable_id_diagnostics manifest.id "case lab reference" manifest.labs
    ++ concat_map
        (λ requirement.
          stable_id_diagnostic manifest.id "case evidence claim reference" requirement.claim
          ++ stable_id_diagnostic manifest.id "case evidence lab reference" requirement.lab)
        manifest.evidence_requirements
    ++ stable_id_diagnostics manifest.id "case source reference" manifest.sources
    ++ lifecycle_diagnostic "case" manifest.id manifest.status
    ++ complete_contract "case" manifest.id manifest.status (missing_complete_case_fields manifest)

unfoldable pub principle_schema : PrincipleManifest → List Diagnostic
principle_schema manifest =
    stable_id_diagnostic manifest.id "principle id" manifest.id
    ++ dimension_diagnostics manifest.id "principle dimension reference" manifest.dimensions
    ++ stable_id_diagnostics manifest.id "principle claim id"
        (map (λ claim. claim.id) manifest.claims)
    ++ stable_id_diagnostics manifest.id "principle lab reference" manifest.labs
    ++ concat_map
        (λ requirement.
          stable_id_diagnostic manifest.id "principle evidence claim reference" requirement.claim
          ++ stable_id_diagnostic manifest.id "principle evidence lab reference" requirement.lab)
        manifest.evidence_requirements
    ++ stable_id_diagnostics manifest.id "principle source reference" manifest.sources
    ++ lifecycle_diagnostic "principle" manifest.id manifest.status
    ++ complete_contract "principle" manifest.id manifest.status
        (missing_complete_principle_fields manifest)

unfoldable pub case_binding_schema : String → CaseBinding → List Diagnostic
case_binding_schema lab_id binding =
    stable_id_diagnostic lab_id "case binding id" binding.id
    ++ stable_id_diagnostic lab_id "case binding case reference" binding.case_id
    ++ stable_id_diagnostic lab_id "case binding claim reference" binding.claim
    ++ stable_id_diagnostic lab_id "case binding workload" binding.workload
    ++ stable_id_diagnostics lab_id "case binding assertion id" binding.assertions

unfoldable pub principle_binding_schema : String → PrincipleBinding → List Diagnostic
principle_binding_schema lab_id binding =
    stable_id_diagnostic lab_id "principle binding id" binding.id
    ++ stable_id_diagnostic lab_id "principle binding principle reference" binding.principle_id
    ++ stable_id_diagnostic lab_id "principle binding claim reference" binding.claim
    ++ stable_id_diagnostic lab_id "principle binding workload" binding.workload
    ++ stable_id_diagnostics lab_id "principle binding assertion id" binding.assertions

-- A nil slice is ranged over as an empty one.
abbrev pub faults_or_nil : Option (List String) → List String
faults_or_nil none = []
faults_or_nil (some faults) = faults

unfoldable pub run_schema : String → RequiredRun → List Diagnostic
run_schema lab_id run =
    stable_id_diagnostic lab_id "required run id" run.id
    ++ stable_id_diagnostic lab_id "required run binding reference" run.binding
    ++ stable_id_diagnostic lab_id "required run baseline reference" run.baseline
    ++ stable_id_diagnostics lab_id "required run variant reference" run.variants
    ++ stable_id_diagnostic lab_id "required run workload" run.workload
    ++ stable_id_diagnostics lab_id "required run fault id" (faults_or_nil run.faults)
    ++ stable_id_diagnostics lab_id "required run adapter reference"
        (map (λ adapter. adapter.id) run.adapters)

unfoldable pub lab_schema : LabManifest → List Diagnostic
lab_schema manifest =
    stable_id_diagnostic manifest.id "lab id" manifest.id
    ++ stable_id_diagnostics manifest.id "lab implementation id" manifest.implementations
    ++ concat_map (λ binding. case_binding_schema manifest.id binding) manifest.case_bindings
    ++ concat_map (λ binding. principle_binding_schema manifest.id binding)
        manifest.principle_bindings
    ++ concat_map (λ run. run_schema manifest.id run) manifest.required_runs
    ++ concat_map (λ metric. lab_metric_id_diagnostic manifest.id metric) manifest.metrics
    ++ stable_id_diagnostics manifest.id "lab source reference" manifest.sources
    ++ lifecycle_diagnostic "lab" manifest.id manifest.status
    ++ diagnostic_if
        (not (str_eq manifest.kind lab_kind_scenario)
          && not (str_eq manifest.kind lab_kind_primitive))
        code_unknown_reference manifest.id "lab has unknown kind"
    ++ complete_contract "lab" manifest.id manifest.status (missing_complete_lab_fields manifest)

-- A field that may be left empty.
abbrev pub optional_id : String → String → String → List Diagnostic
optional_id entity_id field value =
    let diagnostics = stable_id_diagnostic entity_id field value in
    if str_eq value "" then [] else diagnostics

unfoldable pub adapter_schema : AdapterManifest → List Diagnostic
adapter_schema manifest =
    stable_id_diagnostic manifest.id "adapter id" manifest.id
    ++ optional_id manifest.id "adapter interface" manifest.interface
    ++ optional_id manifest.id "adapter runtime" manifest.runtime
    ++ stable_id_diagnostics manifest.id "adapter source reference" manifest.sources
    ++ lifecycle_diagnostic "adapter" manifest.id manifest.status
    ++ complete_contract "adapter" manifest.id manifest.status
        (missing_complete_adapter_fields manifest)
