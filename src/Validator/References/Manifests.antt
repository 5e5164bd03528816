-- ===== src/Validator/References/Manifests.antt =====
-- internal/validator/references.go: the references of cases and of principles.
use works_on_my_whiteboard.Prelude.{
  Bool, true, false, not, ◌&&◌, Option, none, some, List, [], ◌∷◌, ◌++◌, if◌then◌else◌, String,
  any_of, concat_map,
}
use works_on_my_whiteboard.Prelude.Dict.{string_key, str_eq, lookup}
use works_on_my_whiteboard.Diagnostics.{Diagnostic, error_diagnostic, diagnostic_if}
use works_on_my_whiteboard.Diagnostics.Codes.{
  code_case_outside_scope, code_unknown_family, code_unknown_reference, code_missing_case_binding,
  code_missing_principle_binding,
}
use works_on_my_whiteboard.Catalog.{
  Catalog, CaseManifest, PrincipleManifest, LabManifest, EvidenceRequirement, entity_kind_case,
  entity_kind_principle, entity_kind_lab, lab_kind_scenario, lab_kind_primitive,
}
use works_on_my_whiteboard.Validator.{
  contains, resolve_id, principle_manifests_by_id, lab_manifests_by_id,
}
use works_on_my_whiteboard.Validator.References.{
  family_ids_of, scope_case_ids, claim_id_set, canonical_reference_set, is_absent,
  validate_source_references,
}

unfoldable pub has_any_case_binding : Catalog → LabManifest → CaseManifest → Bool
has_any_case_binding c lab manifest =
    any_of
      (λ b.
        str_eq (resolve_id c entity_kind_case b.case_id) manifest.id
        && contains b.claim (claim_id_set manifest.claims))
      lab.case_bindings

unfoldable pub has_exact_case_binding : Catalog → LabManifest → String → String → Bool
has_exact_case_binding c lab case_id claim_id =
    any_of
      (λ b. str_eq (resolve_id c entity_kind_case b.case_id) case_id && str_eq b.claim claim_id)
      lab.case_bindings

unfoldable pub has_any_principle_binding : Catalog → LabManifest → PrincipleManifest → Bool
has_any_principle_binding c lab manifest =
    any_of
      (λ b.
        str_eq (resolve_id c entity_kind_principle b.principle_id) manifest.id
        && contains b.claim (claim_id_set manifest.claims))
      lab.principle_bindings

unfoldable pub has_exact_principle_binding : Catalog → LabManifest → String → String → Bool
has_exact_principle_binding c lab principle_id claim_id =
    any_of
      (λ b.
        str_eq (resolve_id c entity_kind_principle b.principle_id) principle_id
        && str_eq b.claim claim_id)
      lab.principle_bindings

-- The diagnostics of a lab that a manifest names: it is there and of the kind, and binds the manifest.
unfoldable pub lab_diagnostics :
    String → String → String → (LabManifest → Bool) → Option LabManifest → List Diagnostic
lab_diagnostics kind binding_code entity_id is_bound none =
    error_diagnostic code_unknown_reference entity_id "reference to unknown lab" ∷ []
lab_diagnostics kind binding_code entity_id is_bound (some lab) =
    if not (str_eq lab.kind kind)
    then error_diagnostic code_unknown_reference entity_id "reference to unknown lab" ∷ []
    else diagnostic_if (not (is_bound lab)) binding_code entity_id
        "listed lab without a matching binding"

-- The lab of an evidence requirement; it has to be declared by the manifest as well.
abbrev pub if_declared : Bool → Option LabManifest → Option LabManifest
if_declared true lab = lab
if_declared false lab = none

unfoldable pub case_evidence : Catalog → CaseManifest → EvidenceRequirement → List Diagnostic
case_evidence c manifest requirement =
    let lab_id = resolve_id c entity_kind_lab requirement.lab in
    let declared = contains lab_id (canonical_reference_set c entity_kind_lab manifest.labs) in
    diagnostic_if (not (contains requirement.claim (claim_id_set manifest.claims)))
      code_unknown_reference manifest.id "evidence requirement references unknown owned claim"
    ++ lab_diagnostics lab_kind_scenario code_missing_case_binding manifest.id
        (λ lab. has_exact_case_binding c lab manifest.id requirement.claim)
        (if_declared declared (lookup lab_id (lab_manifests_by_id c)))

unfoldable pub case_references : Catalog → CaseManifest → List Diagnostic
case_references c manifest =
    diagnostic_if (not (contains manifest.id (scope_case_ids c))) code_case_outside_scope
      manifest.id "case manifest is outside the scope contract"
    ++ diagnostic_if (not (contains manifest.primary_family (family_ids_of c))) code_unknown_family
        manifest.id "case references unknown primary family"
    ++ concat_map
        (λ family_id.
          diagnostic_if (not (contains family_id (family_ids_of c))) code_unknown_family manifest.id
            "case references unknown secondary family")
        manifest.secondary_families
    ++ concat_map
        (λ id.
          diagnostic_if
            (is_absent
              (lookup (resolve_id c entity_kind_principle id) (principle_manifests_by_id c)))
            code_unknown_reference manifest.id "case references unknown principle")
        manifest.principles
    ++ concat_map
        (λ id.
          lab_diagnostics lab_kind_scenario code_missing_case_binding manifest.id
            (λ lab. has_any_case_binding c lab manifest)
            (lookup (resolve_id c entity_kind_lab id) (lab_manifests_by_id c)))
        manifest.labs
    ++ concat_map (λ requirement. case_evidence c manifest requirement)
        manifest.evidence_requirements
    ++ validate_source_references c manifest.id manifest.sources

unfoldable pub principle_evidence :
    Catalog → PrincipleManifest → EvidenceRequirement → List Diagnostic
principle_evidence c manifest requirement =
    let lab_id = resolve_id c entity_kind_lab requirement.lab in
    let declared = contains lab_id (canonical_reference_set c entity_kind_lab manifest.labs) in
    diagnostic_if (not (contains requirement.claim (claim_id_set manifest.claims)))
      code_unknown_reference manifest.id "evidence requirement references unknown owned claim"
    ++ lab_diagnostics lab_kind_primitive code_missing_principle_binding manifest.id
        (λ lab. has_exact_principle_binding c lab manifest.id requirement.claim)
        (if_declared declared (lookup lab_id (lab_manifests_by_id c)))

unfoldable pub principle_references : Catalog → PrincipleManifest → List Diagnostic
principle_references c manifest =
    concat_map
      (λ id.
        lab_diagnostics lab_kind_primitive code_missing_principle_binding manifest.id
          (λ lab. has_any_principle_binding c lab manifest)
          (lookup (resolve_id c entity_kind_lab id) (lab_manifests_by_id c)))
      manifest.labs
    ++ concat_map (λ requirement. principle_evidence c manifest requirement)
        manifest.evidence_requirements
    ++ validate_source_references c manifest.id manifest.sources
