-- ===== src/Validator/References/Labs.antt =====
-- internal/validator/references.go: the references of labs and adapters, and all of them together.
use works_on_my_whiteboard.Prelude.{
  Bool, false, not, ◌&&◌, Option, none, some, List, [], ◌++◌, map, if◌then◌else◌, String, any_of,
  concat_map, is_nil,
}
use works_on_my_whiteboard.Prelude.Dict.{string_key, str_eq, lookup}
use works_on_my_whiteboard.Diagnostics.{Diagnostic, diagnostic_if}
use works_on_my_whiteboard.Diagnostics.Codes.{code_unknown_reference, code_orphaned_lab}
use works_on_my_whiteboard.Catalog.{
  Catalog, CaseManifest, PrincipleManifest, LabManifest, CaseBinding, PrincipleBinding,
  entity_kind_case, entity_kind_principle, entity_kind_lab, lab_kind_scenario, lab_kind_primitive,
}
use works_on_my_whiteboard.Validator.{
  contains, make_string_set, sorted_entries, resolve_id, case_manifests_by_id,
  principle_manifests_by_id, lab_manifests_by_id, adapter_manifests_by_id,
}
use works_on_my_whiteboard.Validator.References.{
  family_duplicates, family_ids_of, scope_case_diagnostics, exclusion_diagnostics,
  source_diagnostics, claim_diagnostics, canonical_reference_set, is_absent,
  validate_source_references,
}
use works_on_my_whiteboard.Validator.References.Manifests.{case_references, principle_references}

unfoldable pub has_case_evidence_edge : Catalog → CaseManifest → String → String → Bool
has_case_evidence_edge c manifest lab_id claim_id =
    any_of
      (λ requirement.
        str_eq (resolve_id c entity_kind_lab requirement.lab) lab_id
        && str_eq requirement.claim claim_id)
      manifest.evidence_requirements

unfoldable pub has_principle_evidence_edge : Catalog → PrincipleManifest → String → String → Bool
has_principle_evidence_edge c manifest lab_id claim_id =
    any_of
      (λ requirement.
        str_eq (resolve_id c entity_kind_lab requirement.lab) lab_id
        && str_eq requirement.claim claim_id)
      manifest.evidence_requirements

-- An owner that is there lists the lab and requires the evidence.
abbrev pub is_case_edge : Catalog → LabManifest → CaseBinding → Option CaseManifest → Bool
is_case_edge c lab b none = false
is_case_edge c lab b (some owner) =
    contains lab.id (canonical_reference_set c entity_kind_lab owner.labs)
    && has_case_evidence_edge c owner lab.id b.claim

abbrev pub is_principle_edge :
    Catalog → LabManifest → PrincipleBinding → Option PrincipleManifest → Bool
is_principle_edge c lab b none = false
is_principle_edge c lab b (some owner) =
    contains lab.id (canonical_reference_set c entity_kind_lab owner.labs)
    && has_principle_evidence_edge c owner lab.id b.claim

unfoldable pub case_binding_diagnostics : Catalog → LabManifest → CaseBinding → List Diagnostic
case_binding_diagnostics c lab b =
    let owner = lookup (resolve_id c entity_kind_case b.case_id) (case_manifests_by_id c) in
    diagnostic_if (is_absent owner) code_unknown_reference lab.id
      "scenario lab binding references unknown case"
    ++ diagnostic_if (not (is_case_edge c lab b owner)) code_orphaned_lab lab.id
        "scenario lab binding has no reverse owner edge from case"

unfoldable pub principle_binding_diagnostics :
    Catalog → LabManifest → PrincipleBinding → List Diagnostic
principle_binding_diagnostics c lab b =
    let owner =
      lookup (resolve_id c entity_kind_principle b.principle_id) (principle_manifests_by_id c) in
    diagnostic_if (is_absent owner) code_unknown_reference lab.id
      "primitive lab binding references unknown principle"
    ++ diagnostic_if (not (is_principle_edge c lab b owner)) code_orphaned_lab lab.id
        "primitive lab binding has no reverse owner edge from principle"

unfoldable pub referenced_labs : Catalog → List String
referenced_labs c = make_string_set (
    concat_map (λ entry. map (λ id. resolve_id c entity_kind_lab id) entry.1.labs)
      (case_manifests_by_id c)
    ++ concat_map (λ entry. map (λ id. resolve_id c entity_kind_lab id) entry.1.labs)
        (principle_manifests_by_id c))

unfoldable pub lab_references : Catalog → LabManifest → List Diagnostic
lab_references c lab =
    diagnostic_if (not (contains lab.id (referenced_labs c))) code_orphaned_lab lab.id
      "lab is not owned by any case or principle"
    ++ (if str_eq lab.kind lab_kind_scenario
        then diagnostic_if (not (is_nil lab.principle_bindings)) code_orphaned_lab lab.id
            "scenario lab contains principle bindings"
          ++ concat_map (λ b. case_binding_diagnostics c lab b) lab.case_bindings
        else if str_eq lab.kind lab_kind_primitive
        then diagnostic_if (not (is_nil lab.case_bindings)) code_orphaned_lab lab.id
            "primitive lab contains case bindings"
          ++ concat_map (λ b. principle_binding_diagnostics c lab b) lab.principle_bindings
        else [])
    ++ validate_source_references c lab.id lab.sources

unfoldable pub validate_references : (String → Bool) → Option Catalog → List Diagnostic
validate_references is_direct_https none = []
validate_references is_direct_https (some c) =
    family_duplicates [] c.scope.families
    ++ scope_case_diagnostics (family_ids_of c) [] c.scope.cases
    ++ exclusion_diagnostics c
    ++ source_diagnostics is_direct_https c
    ++ claim_diagnostics c
    ++ concat_map (λ entry. case_references c entry.1) (sorted_entries (case_manifests_by_id c))
    ++ concat_map (λ entry. principle_references c entry.1)
        (sorted_entries (principle_manifests_by_id c))
    ++ concat_map (λ entry. lab_references c entry.1) (sorted_entries (lab_manifests_by_id c))
    ++ concat_map (λ entry. validate_source_references c entry.1.id entry.1.sources)
        (sorted_entries (adapter_manifests_by_id c))
