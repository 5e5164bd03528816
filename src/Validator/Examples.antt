-- ===== src/Validator/Examples.antt =====
-- A run of internal/validator at concrete inputs.
use works_on_my_whiteboard.Prelude.{◌≡◌, true, false, Bool, some, [], ◌∷◌, map, String, refl}
use works_on_my_whiteboard.Prelude.Dict.{lookup, insert}
use works_on_my_whiteboard.Prelude.Text.{is_blank}
use works_on_my_whiteboard.Prelude.Sort.{stable_sort, insert_sorted, text_lt}
use works_on_my_whiteboard.Prelude.Lex.{lex_by}
use works_on_my_whiteboard.Harness.Spec.{is_stable_id}
use works_on_my_whiteboard.Alias.{resolve}
use works_on_my_whiteboard.Diagnostics.{error_diagnostic, sort_diagnostics, mode_release}
use works_on_my_whiteboard.Catalog.{
  Catalog, CaseManifest, PrincipleManifest, LabManifest, SourceRecord,
}
use works_on_my_whiteboard.Validator.{
  make_string_set, sorted, sorted_difference, resolve_id, sorted_entries, index_into, index_by_id,
  case_manifests_by_id, principle_manifests_by_id, lab_manifests_by_id, adapter_manifests_by_id,
  source_records_by_id,
}
use works_on_my_whiteboard.Validator.Coverage.{
  baseline_cases, complete_cases, required_by_family, family_coverage, required_principles,
  labs_required, required_scenario_labs, required_primitive_labs, adapters_of_runs,
  required_adapters, compute_coverage,
}
use works_on_my_whiteboard.Validator.Cycle.{
  targets, colour, remove, push, pop, visit_each, closed_walk, visit, first_dependency_cycle,
}
use works_on_my_whiteboard.Validator.Graph.{
  append_incomplete, case_dependencies, principle_dependencies, required_by_complete_case,
  lacks_primitive_edge, missing_principle_labs, release_dependencies,
  build_required_dependency_graph, dependency_cycle_diagnostics, manifest_dependencies,
  validate_dependency_graph,
}
use works_on_my_whiteboard.Validator.Matrix.{
  collect_matrix_bindings, repeated, binding_kind_matches_lab, resolved_binding, check_binding,
  check_variants, check_adapter, check_adapters, check_run,
}
use works_on_my_whiteboard.Validator.Matrix.Build.{
  matrix_choices, add_cell, add_choices, lab_matrix_eligible, add_runs, binding_diagnostics,
  add_lab, add_labs, build_required_matrix,
}
use works_on_my_whiteboard.Validator.References.{
  family_duplicates, scope_case_diagnostics, exclusion_diagnostics, is_date_codes, is_real_date,
  source_diagnostics, build_claim_owners, claim_owned_by, claim_diagnostics, claim_id_set,
  canonical_reference_set, validate_source_references,
}
use works_on_my_whiteboard.Validator.References.Labs.{
  has_case_evidence_edge, has_principle_evidence_edge, case_binding_diagnostics,
  principle_binding_diagnostics, referenced_labs, lab_references, validate_references,
}
use works_on_my_whiteboard.Validator.References.Manifests.{
  has_any_case_binding, has_exact_case_binding, has_any_principle_binding,
  has_exact_principle_binding, lab_diagnostics, case_evidence, case_references, principle_evidence,
  principle_references,
}
use works_on_my_whiteboard.Validator.Report.{
  scope_families, validate_release_families, release_scope_diagnostics, mode_diagnostics, validate,
}
use works_on_my_whiteboard.Validator.Schema.{
  is_lab_metric_id, stable_id_diagnostic, stable_id_diagnostics, lab_metric_id_diagnostic,
  lifecycle_diagnostic, complete_contract_diagnostic, blank, empty, blank_string_items,
  missing_claim_fields, missing_requirement_fields, missing_complete_case_fields,
  missing_complete_principle_fields, missing_case_binding_fields, missing_principle_binding_fields,
  missing_fault_fields, missing_run_fields, missing_bindings, missing_complete_lab_fields,
  missing_complete_adapter_fields,
}
use works_on_my_whiteboard.Validator.Schema.Contracts.{validate_schema_contracts}
use works_on_my_whiteboard.Validator.Schema.Entities.{
  scope_family_schema, scope_case_schema, exclusion_schema, alias_schema, source_schema,
  dimension_diagnostics, case_schema, principle_schema, case_binding_schema,
  principle_binding_schema, run_schema, lab_schema, adapter_schema,
}
use works_on_my_whiteboard.Validator.Cycle.{DependencyGraph}
use works_on_my_whiteboard.Validator.Cycle.Verdict.{IsVerdict, first_dependency_cycle-IsVerdict}
use works_on_my_whiteboard.Validator.Coverage.Counts.{IsAccount, compute_coverage-IsAccount}
use works_on_my_whiteboard.Validator.Matrix.Cells.{IsMatrix, build_required_matrix-IsMatrix}
use works_on_my_whiteboard.Validator.Report.Release.{IsReleasable, validate-IsReleasable}

abbrev rate_limiter : CaseManifest
rate_limiter = record {
  schema_version = 1;
  id = "rate-limiter";
  title = "Rate limiter";
  primary_family = "addressing-traffic";
  secondary_families = [];
  required = true;
  status = "complete";
  dimensions = "capacity-cost-skew" ∷ [];
  principles = "token-bucket" ∷ [];
  claims = record { id = "bounded"; statement = "Bursts are bounded." } ∷ [];
  labs = "rate-limiter-lab" ∷ [];
  evidence_requirements = record { claim = "bounded"; lab = "rate-limiter-lab" } ∷ [];
  sources = "rfc" ∷ [];
}

abbrev token_bucket : PrincipleManifest
token_bucket = record {
  schema_version = 1;
  id = "token-bucket";
  title = "Token bucket";
  required = true;
  status = "complete";
  dimensions = "capacity-cost-skew" ∷ [];
  claims = record { id = "refills"; statement = "Tokens come back." } ∷ [];
  labs = "bucket-lab" ∷ [];
  evidence_requirements = record { claim = "refills"; lab = "bucket-lab" } ∷ [];
  sources = "rfc" ∷ [];
}

abbrev rate_limiter_lab : LabManifest
rate_limiter_lab = record {
  schema_version = 1;
  id = "rate-limiter-lab";
  kind = "scenario";
  required = false;
  status = "complete";
  implementations = "local" ∷ "shared" ∷ [];
  case_bindings =
      record {
        id = "steady-case";
        case_id = "rate-limiter";
        claim = "bounded";
        workload = "steady";
        assertions = "within" ∷ [];
      }
      ∷ [];
  principle_bindings = [];
  required_runs =
      record {
        id = "steady-run";
        binding = "steady-case";
        baseline = "local";
        variants = "shared" ∷ [];
        workload = "steady";
        faults = some [];
        adapters = [];
      }
      ∷ [];
  metrics = "allowed.total" ∷ [];
  sources = "rfc" ∷ [];
}

abbrev bucket_lab : LabManifest
bucket_lab = record {
  schema_version = 1;
  id = "bucket-lab";
  kind = "primitive";
  required = false;
  status = "complete";
  implementations = "integer" ∷ "reference" ∷ [];
  case_bindings = [];
  principle_bindings =
      record {
        id = "burst-principle";
        principle_id = "token-bucket";
        claim = "refills";
        workload = "burst";
        assertions = "exact" ∷ [];
      }
      ∷ [];
  required_runs =
      record {
        id = "burst-run";
        binding = "burst-principle";
        baseline = "integer";
        variants = "reference" ∷ [];
        workload = "burst";
        faults = some [];
        adapters = [];
      }
      ∷ [];
  metrics = "tokens" ∷ [];
  sources = "rfc" ∷ [];
}

abbrev rfc : SourceRecord
rfc = record {
  id = "rfc";
  title = "A standard";
  url = "https://example.org/rfc";
  accessed_at = "2024-02-29";
  kind = "standard";
  license_note = "";
}

abbrev small_catalog : Catalog
small_catalog = record {
  scope = record {
    schema_version = 1;
    families = record { id = "addressing-traffic"; title = "Traffic" } ∷ [];
    cases =
        record {
          id = "rate-limiter";
          title = "Rate limiter";
          primary_family = "addressing-traffic";
        }
        ∷ [];
    exclusions = [];
  };
  sources = ("rfc", rfc) ∷ [];
  aliases = record { terminals = []; entries = [] };
  cases = ("rate-limiter", rate_limiter) ∷ [];
  principles = ("token-bucket", token_bucket) ∷ [];
  labs = ("bucket-lab", bucket_lab) ∷ ("rate-limiter-lab", rate_limiter_lab) ∷ [];
  adapters = [];
}

abbrev any_url : String → Bool
any_url url = true

small_catalog_clean : (validate any_url (some small_catalog) mode_release).diagnostics ≡ []
unfolding make_string_set sorted sorted_difference resolve_id sorted_entries index_into index_by_id
    case_manifests_by_id principle_manifests_by_id lab_manifests_by_id adapter_manifests_by_id
    source_records_by_id baseline_cases complete_cases required_by_family family_coverage
    required_principles labs_required required_scenario_labs required_primitive_labs
    adapters_of_runs required_adapters compute_coverage targets colour remove push pop visit_each
    closed_walk visit first_dependency_cycle append_incomplete case_dependencies
    principle_dependencies required_by_complete_case lacks_primitive_edge missing_principle_labs
    release_dependencies build_required_dependency_graph dependency_cycle_diagnostics
    manifest_dependencies validate_dependency_graph collect_matrix_bindings repeated
    binding_kind_matches_lab resolved_binding check_binding check_variants check_adapter
    check_adapters check_run matrix_choices add_cell add_choices lab_matrix_eligible add_runs
    binding_diagnostics add_lab add_labs build_required_matrix family_duplicates
    scope_case_diagnostics exclusion_diagnostics is_date_codes is_real_date source_diagnostics
    build_claim_owners claim_owned_by claim_diagnostics claim_id_set canonical_reference_set
    validate_source_references has_case_evidence_edge has_principle_evidence_edge
    case_binding_diagnostics principle_binding_diagnostics referenced_labs lab_references
    validate_references has_any_case_binding has_exact_case_binding has_any_principle_binding
    has_exact_principle_binding lab_diagnostics case_evidence case_references principle_evidence
    principle_references scope_families validate_release_families release_scope_diagnostics
    mode_diagnostics validate is_lab_metric_id stable_id_diagnostic stable_id_diagnostics
    lab_metric_id_diagnostic lifecycle_diagnostic complete_contract_diagnostic blank empty
    blank_string_items missing_claim_fields missing_requirement_fields missing_complete_case_fields
    missing_complete_principle_fields missing_case_binding_fields missing_principle_binding_fields
    missing_fault_fields missing_run_fields missing_bindings missing_complete_lab_fields
    missing_complete_adapter_fields validate_schema_contracts scope_family_schema scope_case_schema
    exclusion_schema alias_schema source_schema dimension_diagnostics case_schema principle_schema
    case_binding_schema principle_binding_schema run_schema lab_schema adapter_schema lookup insert
    is_blank stable_sort insert_sorted text_lt lex_by is_stable_id resolve error_diagnostic
    sort_diagnostics
small_catalog_clean = refl

-- A case, a principle and a lab that go round.
abbrev round : DependencyGraph
round =
    ("case:a", "principle:b" ∷ [])
    ∷ ("lab:c", "case:a" ∷ [])
    ∷ ("principle:b", "adapter:d" ∷ "lab:c" ∷ [])
    ∷ []

round_found :
    first_dependency_cycle round ≡ some ("case:a" ∷ "principle:b" ∷ "lab:c" ∷ "case:a" ∷ [])
unfolding first_dependency_cycle visit_each visit targets push pop remove closed_walk colour sorted
    stable_sort insert_sorted text_lt lookup insert
round_found = refl

small_matrix :
    map (λ cell. cell.role) (build_required_matrix (some small_catalog)).0
    ≡ "baseline" ∷ "variant" ∷ "baseline" ∷ "variant" ∷ []
unfolding make_string_set sorted sorted_difference resolve_id sorted_entries index_into index_by_id
    case_manifests_by_id principle_manifests_by_id lab_manifests_by_id adapter_manifests_by_id
    source_records_by_id baseline_cases complete_cases required_by_family family_coverage
    required_principles labs_required required_scenario_labs required_primitive_labs
    adapters_of_runs required_adapters compute_coverage collect_matrix_bindings repeated
    binding_kind_matches_lab resolved_binding check_binding check_variants check_adapter
    check_adapters check_run matrix_choices add_cell add_choices lab_matrix_eligible add_runs
    binding_diagnostics add_lab add_labs build_required_matrix family_duplicates
    scope_case_diagnostics exclusion_diagnostics is_date_codes is_real_date source_diagnostics
    build_claim_owners claim_owned_by claim_diagnostics claim_id_set canonical_reference_set
    validate_source_references is_lab_metric_id stable_id_diagnostic stable_id_diagnostics
    lab_metric_id_diagnostic lifecycle_diagnostic complete_contract_diagnostic blank empty
    blank_string_items missing_claim_fields missing_requirement_fields missing_complete_case_fields
    missing_complete_principle_fields missing_case_binding_fields missing_principle_binding_fields
    missing_fault_fields missing_run_fields missing_bindings missing_complete_lab_fields
    missing_complete_adapter_fields lookup insert is_blank stable_sort insert_sorted text_lt lex_by
    resolve error_diagnostic sort_diagnostics
small_matrix = refl

compute_coverage-IsAccount_example : IsAccount small_catalog (compute_coverage (some small_catalog))
compute_coverage-IsAccount_example = compute_coverage-IsAccount small_catalog

first_dependency_cycle-IsVerdict_example : IsVerdict round (first_dependency_cycle round)
first_dependency_cycle-IsVerdict_example = first_dependency_cycle-IsVerdict round

build_required_matrix-IsMatrix_example :
    IsMatrix small_catalog (build_required_matrix (some small_catalog)).0
build_required_matrix-IsMatrix_example = build_required_matrix-IsMatrix small_catalog

validate-IsReleasable_example :
    IsReleasable small_catalog (validate any_url (some small_catalog) mode_release).coverage
validate-IsReleasable_example = validate-IsReleasable any_url small_catalog small_catalog_clean
