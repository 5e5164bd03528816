-- ===== src/Validator/Graph.antt =====
-- internal/validator/graph.go: the diagnostics of the dependencies between manifests.
pub mod Clean
use works_on_my_whiteboard.Prelude.{
  ℕ, Bool, true, false, not, ◌&&◌, ◌||◌, Option, none, some, List, [], ◌∷◌, ◌++◌, map,
  if◌then◌else◌, String, keep_if, any_of, concat_map, fold_left, is_nil,
}
use works_on_my_whiteboard.Prelude.Dict.{string_key, str_eq, lookup}
use works_on_my_whiteboard.Prelude.Text.{join_text}
use works_on_my_whiteboard.Diagnostics.{Diagnostic, error_diagnostic, diagnostic_if, mode_release}
use works_on_my_whiteboard.Diagnostics.Codes.{
  code_dependency_incomplete, code_missing_required_principle_lab,
}
use works_on_my_whiteboard.Catalog.{
  Catalog, CaseManifest, PrincipleManifest, LabManifest, lifecycle_status_complete,
  entity_kind_principle, entity_kind_lab, lab_kind_scenario, lab_kind_primitive,
}
use works_on_my_whiteboard.Validator.{
  contains, add, make_string_set, sorted, sorted_entries, resolve_id, case_manifests_by_id,
  principle_manifests_by_id, lab_manifests_by_id,
}
use works_on_my_whiteboard.Validator.Coverage.{Coverage, is_complete, adapters_of_runs}
use works_on_my_whiteboard.Validator.Cycle.{DependencyGraph, first_dependency_cycle}

-- incompleteTargets and diagnostics, as appendIncomplete changes them.
pub record Incomplete : Type 0 where
  pub targets : List String
  pub diagnostics : List Diagnostic

unfoldable pub append_incomplete :
    String → String → String → String → Bool → Incomplete → Incomplete
append_incomplete target_kind target_id entity_id message bad st =
    let target = join_text target_kind (join_text ":" target_id) in
    if not bad || contains target st.targets then st else record {
      targets = add target st.targets;
      diagnostics =
          st.diagnostics ++ error_diagnostic code_dependency_incomplete entity_id message ∷ [];
    }

-- A principle that is there, and not complete.
abbrev pub is_incomplete_principle : Option PrincipleManifest → Bool
is_incomplete_principle none = false
is_incomplete_principle (some m) = not (str_eq m.status lifecycle_status_complete)

-- A lab that is there, and of another kind or not complete.
abbrev pub is_unfit_lab : String → Option LabManifest → Bool
is_unfit_lab kind none = false
is_unfit_lab kind (some m) =
    not (str_eq m.kind kind) || not (str_eq m.status lifecycle_status_complete)

-- A lab that is there, of the kind, and not complete.
abbrev pub is_incomplete_lab : String → Option LabManifest → Bool
is_incomplete_lab kind none = false
is_incomplete_lab kind (some m) =
    str_eq m.kind kind && not (str_eq m.status lifecycle_status_complete)

unfoldable pub case_dependencies : Catalog → CaseManifest → Incomplete → Incomplete
case_dependencies c manifest st =
    let after_principles =
      fold_left
        (λ s reference.
          let id = resolve_id c entity_kind_principle reference in
          append_incomplete "principle" id manifest.id "complete case requires complete principle"
            (is_incomplete_principle (lookup id (principle_manifests_by_id c))) s)
        st manifest.principles in
    let after_labs =
      fold_left
        (λ s reference.
          let id = resolve_id c entity_kind_lab reference in
          append_incomplete "lab" id manifest.id "complete case requires complete scenario lab"
            (is_unfit_lab lab_kind_scenario (lookup id (lab_manifests_by_id c))) s)
        after_principles manifest.labs in
    if is_complete manifest then after_labs else st

unfoldable pub principle_dependencies : Catalog → PrincipleManifest → Incomplete → Incomplete
principle_dependencies c manifest st =
    let after_labs =
      fold_left
        (λ s reference.
          let id = resolve_id c entity_kind_lab reference in
          append_incomplete "lab" id manifest.id
            "complete principle requires complete primitive lab"
            (is_unfit_lab lab_kind_primitive (lookup id (lab_manifests_by_id c))) s)
        st manifest.labs in
    if str_eq manifest.status lifecycle_status_complete then after_labs else st

-- requiredByCompleteCase
unfoldable pub required_by_complete_case : Catalog → List String
required_by_complete_case c =
    concat_map (λ entry. map (λ id. resolve_id c entity_kind_principle id) entry.1.principles)
      (keep_if (λ entry. is_complete entry.1) (sorted_entries (case_manifests_by_id c)))

abbrev pub may_be_primitive : Option LabManifest → Bool
may_be_primitive none = true
may_be_primitive (some lab) = str_eq lab.kind lab_kind_primitive

unfoldable pub lacks_primitive_edge : Catalog → Option PrincipleManifest → Bool
lacks_primitive_edge c none = false
lacks_primitive_edge c (some principle) = not (
    any_of
      (λ reference.
        may_be_primitive (lookup (resolve_id c entity_kind_lab reference) (lab_manifests_by_id c)))
      principle.labs)

unfoldable pub missing_principle_labs : Catalog → Coverage → List Diagnostic
missing_principle_labs c coverage =
    concat_map
      (λ id.
        diagnostic_if (lacks_primitive_edge c (lookup id (principle_manifests_by_id c)))
          code_missing_required_principle_lab id
          "required principle has no owner-listed primitive lab")
      (sorted (make_string_set (coverage.required_principles ++ required_by_complete_case c)))

unfoldable pub release_dependencies : Catalog → Coverage → Incomplete → Incomplete
release_dependencies c coverage st =
    let after_principles =
      fold_left
        (λ s id.
          append_incomplete "principle" id id "release requires principle to be complete"
            (is_incomplete_principle (lookup id (principle_manifests_by_id c))) s)
        st coverage.required_principles in
    let after_scenarios =
      fold_left
        (λ s id.
          append_incomplete "lab" id id "release requires scenario lab to be complete"
            (is_incomplete_lab lab_kind_scenario (lookup id (lab_manifests_by_id c))) s)
        after_principles coverage.required_scenario_labs in
    fold_left
      (λ s id.
        append_incomplete "lab" id id "release requires primitive lab to be complete"
          (is_incomplete_lab lab_kind_primitive (lookup id (lab_manifests_by_id c))) s)
      after_scenarios coverage.required_primitive_labs

-- A node of the graph, which has a key once a target is appended.
abbrev pub graph_node : String → List String → DependencyGraph
graph_node from found = if is_nil found then [] else (from, sorted found) ∷ []

unfoldable pub build_required_dependency_graph : Catalog → DependencyGraph
build_required_dependency_graph c =
    concat_map
      (λ entry. graph_node (join_text "case:" entry.1.id) (
        map (λ id. join_text "principle:" (resolve_id c entity_kind_principle id))
          entry.1.principles
        ++ map (λ id. join_text "lab:" (resolve_id c entity_kind_lab id)) entry.1.labs))
      (sorted_entries (case_manifests_by_id c))
    ++ concat_map
        (λ entry.
          graph_node (join_text "principle:" entry.1.id)
            (map (λ id. join_text "lab:" (resolve_id c entity_kind_lab id)) entry.1.labs))
        (sorted_entries (principle_manifests_by_id c))
    ++ concat_map
        (λ entry.
          graph_node (join_text "lab:" entry.1.id)
            (map (λ id. join_text "adapter:" id) (adapters_of_runs entry.1.required_runs)))
        (sorted_entries (lab_manifests_by_id c))

-- A search out of fuel, which does not happen, has no list.
abbrev pub cycle_diagnostics : Option (List String) → List Diagnostic
cycle_diagnostics none = []
cycle_diagnostics (some []) = []
cycle_diagnostics (some (node ∷ nodes)) =
    error_diagnostic code_dependency_incomplete node "required dependency cycle" ∷ []

unfoldable pub dependency_cycle_diagnostics : DependencyGraph → List Diagnostic
dependency_cycle_diagnostics graph = cycle_diagnostics (first_dependency_cycle graph)

-- The diagnostics of complete manifests.
unfoldable pub manifest_dependencies : Catalog → Incomplete
manifest_dependencies c =
    fold_left (λ st entry. principle_dependencies c entry.1 st)
      (fold_left (λ st entry. case_dependencies c entry.1 st)
        (record { targets = []; diagnostics = [] }) (sorted_entries (case_manifests_by_id c)))
      (sorted_entries (principle_manifests_by_id c))

unfoldable pub validate_dependency_graph : Option Catalog → Coverage → String → List Diagnostic
validate_dependency_graph none coverage mode = []
validate_dependency_graph (some c) coverage mode =
    let manifests = manifest_dependencies c in
    let with_labs = record manifests {
      diagnostics = manifests.diagnostics ++ missing_principle_labs c coverage;
    } in
    let released = release_dependencies c coverage with_labs in
    (if str_eq mode mode_release then released.diagnostics else with_labs.diagnostics)
    ++ dependency_cycle_diagnostics (build_required_dependency_graph c)
