-- ===== src/Validator/Graph/Clean.antt =====
-- internal/validator/graph.go: what a dependency graph without diagnostics shows.
use works_on_my_whiteboard.Prelude.{
  ◌≡◌, Bool, true, false, none, some, Option, List, [], ◌∷◌, ◌++◌, if◌then◌else◌, String, refl, ap,
  All, append-nil, snoc-nonempty, fold_left, Bool-cases, inl, inr,
}
use works_on_my_whiteboard.Prelude.Dict.{string_key, str_eq, lookup}
use works_on_my_whiteboard.Prelude.Text.{join_text}
use works_on_my_whiteboard.Diagnostics.{error_diagnostic, mode_release}
use works_on_my_whiteboard.Diagnostics.Codes.{code_dependency_incomplete}
use works_on_my_whiteboard.Catalog.{
  Catalog, CaseManifest, PrincipleManifest, lifecycle_status_complete, lab_kind_scenario,
  lab_kind_primitive,
}
use works_on_my_whiteboard.Validator.{
  contains, add, sorted_entries, case_manifests_by_id, principle_manifests_by_id,
  lab_manifests_by_id,
}
use works_on_my_whiteboard.Validator.Coverage.{Coverage, is_complete}
use works_on_my_whiteboard.Validator.Cycle.{DependencyGraph, first_dependency_cycle}
use works_on_my_whiteboard.Validator.Cycle.Walks.{Ends}
use works_on_my_whiteboard.Validator.Cycle.Verdict.{IsVerdict, first_dependency_cycle-IsVerdict}
use works_on_my_whiteboard.Validator.Graph.{
  Incomplete, append_incomplete, is_incomplete_principle, is_incomplete_lab, case_dependencies,
  principle_dependencies, missing_principle_labs, release_dependencies,
  build_required_dependency_graph, cycle_diagnostics, dependency_cycle_diagnostics,
  manifest_dependencies, validate_dependency_graph,
}

-- A target is recorded with a diagnostic only.
abbrev pub IsQuiet : Incomplete → Type 0
IsQuiet st = st.diagnostics ≡ [] → st.targets ≡ []

append_incomplete-IsQuiet :
    (kind id entity_id message : String) (bad : Bool) (st : Incomplete)
    → IsQuiet st
    → IsQuiet (append_incomplete kind id entity_id message bad st)
unfolding append_incomplete
append_incomplete-IsQuiet kind id entity_id message false st quiet = quiet
append_incomplete-IsQuiet kind id entity_id message true st quiet =
    elim (Bool-cases (contains (join_text kind (join_text ":" id)) st.targets)) [
      | inl there ↦ rw there quiet
      | inr new ↦ rw new (λ h. absurd (snoc-nonempty st.diagnostics _ h))
    ]

append_incomplete-nil :
    (kind id entity_id message : String) (bad : Bool) (st : Incomplete)
    → IsQuiet st
    → (append_incomplete kind id entity_id message bad st).diagnostics ≡ []
    → (bad ≡ false) × (st.diagnostics ≡ [])
unfolding append_incomplete
append_incomplete-nil kind id entity_id message false st quiet h = (refl, h)
append_incomplete-nil kind id entity_id message true st quiet h =
    let target = join_text kind (join_text ":" id) in split (contains target st.targets) refl h
  where
    split :
        (there : Bool)
        → contains (join_text kind (join_text ":" id)) st.targets ≡ there
        → (if there then st else record {
          targets = add (join_text kind (join_text ":" id)) st.targets;
          diagnostics =
              st.diagnostics ++ error_diagnostic code_dependency_incomplete entity_id message ∷ [];
        }).diagnostics
          ≡ []
        → (true ≡ false) × (st.diagnostics ≡ [])
    split true there k =
        cc (ap (λ ts. contains (join_text kind (join_text ":" id)) ts) (quiet k), there)
    split false there k = absurd (snoc-nonempty st.diagnostics _ k)

module _ {A : Type 0} (step : Incomplete → A → Incomplete) where
  pub fold_left-IsQuiet :
      ((s : Incomplete) (x : A) → IsQuiet s → IsQuiet (step s x))
      → (xs : List A) (st : Incomplete) → IsQuiet st
      → IsQuiet (fold_left step st xs)
  fold_left-IsQuiet keeps [] st quiet = quiet
  fold_left-IsQuiet keeps (x ∷ xs) st quiet =
      fold_left-IsQuiet keeps xs (step st x) (keeps st x quiet)

-- A loop over IDs that appends nothing finds none incomplete.
fold_incomplete-nil :
    (kind message : String) (bad : String → Bool) (ids : List String) (st : Incomplete)
    → IsQuiet st
    → (fold_left (λ s id. append_incomplete kind id id message (bad id) s) st ids).diagnostics ≡ []
    → All (λ id. bad id ≡ false) ids × (st.diagnostics ≡ [])
fold_incomplete-nil kind message bad [] st quiet h = (tt, h)
fold_incomplete-nil kind message bad (id ∷ ids) st quiet h =
    let (rest, before) =
      fold_incomplete-nil kind message bad ids (append_incomplete kind id id message (bad id) st)
        (append_incomplete-IsQuiet kind id id message (bad id) st quiet) h in
    let (this, clean) = append_incomplete-nil kind id id message (bad id) st quiet before in
    ((this, rest), clean)

case_dependencies-IsQuiet :
    (c : Catalog) (manifest : CaseManifest) (st : Incomplete)
    → IsQuiet st
    → IsQuiet (case_dependencies c manifest st)
unfolding case_dependencies
case_dependencies-IsQuiet c manifest st quiet = elim (Bool-cases (is_complete manifest)) [
  | inr draft ↦ rw draft quiet
  | inl complete ↦ rw complete (
      fold_left-IsQuiet _ (λ s r q. append_incomplete-IsQuiet _ _ _ _ _ s q) manifest.labs _
        (fold_left-IsQuiet _ (λ s r q. append_incomplete-IsQuiet _ _ _ _ _ s q) manifest.principles
          st quiet))
]

principle_dependencies-IsQuiet :
    (c : Catalog) (manifest : PrincipleManifest) (st : Incomplete)
    → IsQuiet st
    → IsQuiet (principle_dependencies c manifest st)
unfolding principle_dependencies
principle_dependencies-IsQuiet c manifest st quiet =
    elim (Bool-cases (str_eq manifest.status lifecycle_status_complete)) [
      | inr draft ↦ rw draft quiet
      | inl complete ↦ rw complete (
          fold_left-IsQuiet _ (λ s r q. append_incomplete-IsQuiet _ _ _ _ _ s q) manifest.labs st
            quiet)
    ]

manifest_dependencies-IsQuiet : (c : Catalog) → IsQuiet (manifest_dependencies c)
unfolding manifest_dependencies
manifest_dependencies-IsQuiet c =
    fold_left-IsQuiet _ (λ s entry q. principle_dependencies-IsQuiet c entry.1 s q)
      (sorted_entries (principle_manifests_by_id c)) _
      (fold_left-IsQuiet _ (λ s entry q. case_dependencies-IsQuiet c entry.1 s q)
        (sorted_entries (case_manifests_by_id c)) _ (λ h. refl))

-- What a release requires is complete, as far as it is declared.
pub record IsReleased (c : Catalog) (coverage : Coverage) : Type 0 where
  pub principles :
      All
        (λ id. is_incomplete_principle (lookup id (principle_manifests_by_id c)) ≡ false)
        coverage.required_principles
  pub scenarios :
      All
        (λ id. is_incomplete_lab lab_kind_scenario (lookup id (lab_manifests_by_id c)) ≡ false)
        coverage.required_scenario_labs
  pub primitives :
      All
        (λ id. is_incomplete_lab lab_kind_primitive (lookup id (lab_manifests_by_id c)) ≡ false)
        coverage.required_primitive_labs

release_dependencies-IsReleased :
    (c : Catalog) (coverage : Coverage) (st : Incomplete)
    → IsQuiet st
    → (release_dependencies c coverage st).diagnostics ≡ []
    → IsReleased c coverage
unfolding release_dependencies
release_dependencies-IsReleased c coverage st quiet h =
    let bad_principle : String → Bool =
      λ id. is_incomplete_principle (lookup id (principle_manifests_by_id c)) in
    let bad_scenario : String → Bool =
      λ id. is_incomplete_lab lab_kind_scenario (lookup id (lab_manifests_by_id c)) in
    let bad_primitive : String → Bool =
      λ id. is_incomplete_lab lab_kind_primitive (lookup id (lab_manifests_by_id c)) in
    let quiet_principles =
      fold_left-IsQuiet _ (λ s id q. append_incomplete-IsQuiet _ _ _ _ _ s q)
        coverage.required_principles st quiet in
    let quiet_scenarios =
      fold_left-IsQuiet _ (λ s id q. append_incomplete-IsQuiet _ _ _ _ _ s q)
        coverage.required_scenario_labs _ quiet_principles in
    let (primitives, h1) =
      fold_incomplete-nil _ _ bad_primitive coverage.required_primitive_labs _ quiet_scenarios h in
    let (scenarios, h2) =
      fold_incomplete-nil _ _ bad_scenario coverage.required_scenario_labs _ quiet_principles h1 in
    let (principles, h3) =
      fold_incomplete-nil _ _ bad_principle coverage.required_principles st quiet h2 in
    record { principles = principles; scenarios = scenarios; primitives = primitives }

cycle_diagnostics-nil :
    (graph : DependencyGraph) (found : Option (List String))
    → IsVerdict graph found
    → cycle_diagnostics found ≡ []
    → (node : String) → Ends graph node
cycle_diagnostics-nil graph none verdict h node = absurd verdict
cycle_diagnostics-nil graph (some []) verdict h node = verdict.0 node
cycle_diagnostics-nil graph (some (n ∷ nodes)) verdict h node = cc

-- Without diagnostics on a release, what it requires is complete and no dependencies go round.
pub validate_dependency_graph-IsReleased :
    (c : Catalog) (coverage : Coverage)
    → validate_dependency_graph (some c) coverage mode_release ≡ []
    → IsReleased c coverage × ((node : String) → Ends (build_required_dependency_graph c) node)
unfolding validate_dependency_graph dependency_cycle_diagnostics
validate_dependency_graph-IsReleased c coverage h =
    let graph = build_required_dependency_graph c in
    let (released, acyclic) = append-nil _ (cycle_diagnostics (first_dependency_cycle graph)) h in
    (
      release_dependencies-IsReleased c coverage _
          (λ clean.
            manifest_dependencies-IsQuiet c
              (append-nil _ (missing_principle_labs c coverage) clean).0)
          released,
      cycle_diagnostics-nil graph (first_dependency_cycle graph)
          (first_dependency_cycle-IsVerdict graph) acyclic,
    )
