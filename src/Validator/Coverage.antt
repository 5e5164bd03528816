-- ===== src/Validator/Coverage.antt =====
-- internal/validator/coverage.go: what of the scope is covered.
pub mod Counts
use works_on_my_whiteboard.Prelude.{
  ℕ, Bool, true, false, ◌&&◌, not, Option, none, some, List, [], ◌∷◌, ◌++◌, map, if◌then◌else◌,
  String, keep_if, concat_map, length,
}
use works_on_my_whiteboard.Prelude.Dict.{string_key, str_eq, lookup}
use works_on_my_whiteboard.Catalog.{
  Catalog, Scope, ScopeCase, ScopeFamily, CaseManifest, PrincipleManifest, LabManifest, RequiredRun,
  AdapterRequirement, lifecycle_status_complete, entity_kind_principle, entity_kind_lab,
  lab_kind_scenario, lab_kind_primitive,
}
use works_on_my_whiteboard.Validator.{
  make_string_set, sorted, sorted_difference, sorted_entries, resolve_id, case_manifests_by_id,
  principle_manifests_by_id, lab_manifests_by_id,
}

pub record FamilyCoverage : Type 0 where
  pub id : String
  pub required : ℕ
  pub complete : ℕ

pub record Coverage : Type 0 where
  pub baseline_total : ℕ
  pub complete_total : ℕ
  pub missing_case_ids : List String
  pub unexpected_case_ids : List String
  pub families : List FamilyCoverage
  pub required_principles : List String
  pub required_scenario_labs : List String
  pub required_primitive_labs : List String
  pub required_adapters : List String

abbrev pub empty_coverage : Coverage
empty_coverage = record {
  baseline_total = 0;
  complete_total = 0;
  missing_case_ids = [];
  unexpected_case_ids = [];
  families = [];
  required_principles = [];
  required_scenario_labs = [];
  required_primitive_labs = [];
  required_adapters = [];
}

abbrev pub is_complete : CaseManifest → Bool
is_complete manifest = str_eq manifest.status lifecycle_status_complete

unfoldable pub baseline_cases : Catalog → List String
baseline_cases c = make_string_set (map (λ k. k.id) c.scope.cases)

unfoldable pub complete_cases : Catalog → List String
complete_cases c = make_string_set (
    map (λ entry. entry.1.id)
      (keep_if (λ entry. is_complete entry.1) (sorted_entries (case_manifests_by_id c))))

-- requiredByFamily[familyID]
unfoldable pub required_by_family : Catalog → String → List String
required_by_family c family_id =
    make_string_set
      (map (λ k. k.id) (keep_if (λ k. str_eq k.primary_family family_id) c.scope.cases))

-- A case of the scope is complete, and of its family.
abbrev pub is_complete_member : Option CaseManifest → String → Bool
is_complete_member none family_id = false
is_complete_member (some manifest) family_id =
    is_complete manifest && str_eq manifest.primary_family family_id

unfoldable pub family_coverage : Catalog → String → FamilyCoverage
family_coverage c family_id =
    let members = required_by_family c family_id in
    let cases = case_manifests_by_id c in
    record {
      id = family_id;
      required = length members;
      complete =
          length (keep_if (λ case_id. is_complete_member (lookup case_id cases) family_id) members);
    }

-- The IDs of a field of an indexed manifest, resolved; a missing manifest has none.
abbrev pub ids_of : {V : Type 0} → (V → List String) → Option V → List String
ids_of field none = []
ids_of field (some manifest) = field manifest

unfoldable pub required_principles : Catalog → List String
required_principles c = make_string_set (
    map (λ entry. entry.0)
      (keep_if (λ entry. entry.1.required) (sorted_entries (principle_manifests_by_id c)))
    ++ concat_map
        (λ case_id.
          map (λ id. resolve_id c entity_kind_principle id)
            (ids_of (λ m. m.principles) (lookup case_id (case_manifests_by_id c))))
        (sorted (baseline_cases c)))

-- The labs of one kind that are required in their own right.
unfoldable pub labs_required : Catalog → String → List String
labs_required c kind =
    map (λ entry. entry.0)
      (keep_if (λ entry. entry.1.required && str_eq entry.1.kind kind)
        (sorted_entries (lab_manifests_by_id c)))

unfoldable pub required_scenario_labs : Catalog → List String
required_scenario_labs c = make_string_set (
    concat_map
      (λ case_id.
        map (λ id. resolve_id c entity_kind_lab id)
          (ids_of (λ m. m.labs) (lookup case_id (case_manifests_by_id c))))
      (sorted (baseline_cases c))
    ++ labs_required c lab_kind_scenario)

unfoldable pub required_primitive_labs : Catalog → List String
required_primitive_labs c = make_string_set (
    concat_map
      (λ principle_id.
        map (λ id. resolve_id c entity_kind_lab id)
          (ids_of (λ m. m.labs) (lookup principle_id (principle_manifests_by_id c))))
      (sorted (required_principles c))
    ++ labs_required c lab_kind_primitive)

-- The adapters that the runs of a lab require.
unfoldable pub adapters_of_runs : List RequiredRun → List String
adapters_of_runs runs =
    concat_map
      (λ run. map (λ adapter. adapter.id) (keep_if (λ adapter. adapter.required) run.adapters)) runs

abbrev pub adapters_of_lab : String → Option LabManifest → List String
adapters_of_lab kind none = []
adapters_of_lab kind (some lab) =
    if str_eq lab.kind kind then adapters_of_runs lab.required_runs else []

unfoldable pub required_adapters : Catalog → List String
required_adapters c =
    let labs = lab_manifests_by_id c in
    make_string_set (
      concat_map (λ id. adapters_of_lab lab_kind_scenario (lookup id labs))
        (sorted (required_scenario_labs c))
      ++ concat_map (λ id. adapters_of_lab lab_kind_primitive (lookup id labs))
          (sorted (required_primitive_labs c)))

unfoldable pub compute_coverage : Option Catalog → Coverage
compute_coverage none = empty_coverage
compute_coverage (some c) = record {
  baseline_total = length (baseline_cases c);
  complete_total = length (complete_cases c);
  missing_case_ids = sorted_difference (baseline_cases c) (complete_cases c);
  unexpected_case_ids = sorted_difference (complete_cases c) (baseline_cases c);
  families =
      map (λ id. family_coverage c id)
        (sorted (make_string_set (map (λ f. f.id) c.scope.families)));
  required_principles = sorted (required_principles c);
  required_scenario_labs = sorted (required_scenario_labs c);
  required_primitive_labs = sorted (required_primitive_labs c);
  required_adapters = sorted (required_adapters c);
}
