-- ===== src/Validator/Matrix/Invariant.antt =====
-- internal/validator/matrix.go: what holds of the cells as the matrix is built.
use mathlib.Core.List.{Memᴰ}
use works_on_my_whiteboard.Prelude.{
  ◌≡◌, Bool, true, false, Option, none, some, List, [], ◌∷◌, if◌then◌else◌, String, ap, subst,
  arith, All, All-map, All-append, any_of, fold_left, Bool-cases, inl, inr,
}
use works_on_my_whiteboard.Prelude.Dict.{string_key, str_eq, str_eq_iff, lookup}
use works_on_my_whiteboard.Catalog.{Catalog, LabManifest, RequiredRun}
use works_on_my_whiteboard.Validator.{resolve_id, lab_manifests_by_id, adapter_manifests_by_id}
use works_on_my_whiteboard.Validator.References.{build_claim_owners, claim_owned_by}
use works_on_my_whiteboard.Validator.Matrix.{
  MatrixBinding, collect_matrix_bindings, bindings_of, with_claim, resolved_binding,
  binding_kind_matches_lab,
}
use works_on_my_whiteboard.Validator.Matrix.Build.{
  MatrixCell, MatrixChoice, Building, matrix_cell, matrix_cell_identity, texts_eq, add_cell,
  mark_used, lab_matrix_eligible,
}
use works_on_my_whiteboard.Validator.Matrix.Unique.{
  IsUnique, IsUnique-snoc, unseen-Differs, texts_eq_refl,
}
use works_on_my_whiteboard.Validator.Matrix.Runs.{is_supported}

-- A binding as one of the lab's bindings becomes in the course of a build.
abbrev pub IsBindingOf : Catalog → LabManifest → MatrixBinding → Type 0
IsBindingOf c lab binding =
    (source : MatrixBinding) × (used : Bool) × Memᴰ source (collect_matrix_bindings lab)
    × (binding ≡ record (with_claim c (build_claim_owners c) source) { used = used })

-- A cell is of an eligible lab of the catalog, of a run of the lab and of a binding of the lab, of
-- the lab's kind, whose claim its owner declares; its implementation or adapter is there.
pub record IsJustified (c : Catalog) (cell : MatrixCell) : Type 0 where
  pub lab : LabManifest
  pub run : RequiredRun
  pub binding : MatrixBinding
  pub declared : lookup cell.lab_id (lab_manifests_by_id c) ≡ some lab
  pub eligible : lab_matrix_eligible c lab ≡ true
  pub required : Memᴰ run lab.required_runs
  pub bound : Memᴰ binding (collect_matrix_bindings lab)
  pub run_named : cell.required_run_id ≡ run.id
  pub binding_named : (run.binding ≡ cell.binding_id) × (binding.id ≡ cell.binding_id)
  pub of_kind : binding_kind_matches_lab binding.kind lab.kind ≡ true
  pub owned :
      claim_owned_by
        (build_claim_owners c)
        cell.claim_id
        binding.kind
        (resolve_id c binding.kind binding.owner_id)
      ≡ true
  pub same_workload : (cell.workload ≡ run.workload) × (cell.workload ≡ binding.workload)
  pub supported :
      is_supported lab (adapter_manifests_by_id c) cell.role cell.implementation_id ≡ true

-- What holds of the variables of the loops.
abbrev pub Inv : Catalog → Building → Type 0
Inv c st =
    IsUnique st.matrix
    × All (λ cell. any_of (λ key. texts_eq key (matrix_cell_identity cell)) st.seen_cells ≡ true)
        st.matrix
    × All (IsJustified c) st.matrix

add_cell-Inv :
    (c : Catalog) (cell : MatrixCell) (st : Building)
    → IsJustified c cell
    → Inv c st
    → Inv c (add_cell cell st)
unfolding add_cell
add_cell-Inv c cell st just h =
    elim (Bool-cases (any_of (λ seen. texts_eq seen (matrix_cell_identity cell)) st.seen_cells)) [
      | inl there ↦ rw there h
      | inr new ↦ rw new (
        IsUnique-snoc st.matrix cell (unseen-Differs cell st.seen_cells st.matrix new h.1) h.0,
        All-append _ st.matrix (cell ∷ []) (All-map (λ other there. ground arith) st.matrix h.1)
            (ground (arith, texts_eq_refl (matrix_cell_identity cell)), tt),
        All-append (IsJustified c) st.matrix (cell ∷ []) h.2 (just, tt),
      )
    ]

pub add_choices-Inv :
    (c : Catalog) (lab : LabManifest) (run : RequiredRun) (binding : MatrixBinding)
    (choices : List MatrixChoice) (st : Building)
    → All (λ choice. IsJustified c (matrix_cell lab run binding choice)) choices
    → Inv c st
    → Inv c (fold_left (λ s choice. add_cell (matrix_cell lab run binding choice) s) st choices)
add_choices-Inv c lab run binding [] st just h = h
add_choices-Inv c lab run binding (choice ∷ choices) st just h =
    add_choices-Inv c lab run binding choices (add_cell (matrix_cell lab run binding choice) st)
      just.1 (add_cell-Inv c (matrix_cell lab run binding choice) st just.0 h)

-- The resolved binding is of those given, and has the name that the run gives.
pub resolved_member :
    (P : MatrixBinding → Type 0) (name : String) (bindings : List MatrixBinding)
    (binding : MatrixBinding)
    → All P bindings
    → resolved_binding name bindings ≡ some binding
    → P binding
unfolding resolved_binding
resolved_member P name [] binding h found = cc
resolved_member P name (b ∷ []) binding h found =
    let same : b ≡ binding = ground arith in subst P same h.0
resolved_member P name (b ∷ other ∷ bindings) binding h found = cc

pub bindings_of-All :
    (P : MatrixBinding → Type 0) (name : String) (bindings : List MatrixBinding)
    → All P bindings
    → All (λ b. P b × (b.id ≡ name)) (bindings_of bindings name)
bindings_of-All P name [] h = tt
bindings_of-All P name (b ∷ bindings) h = elim (Bool-cases (str_eq b.id name)) [
  | inl same ↦ rw same ((h.0, (str_eq_iff b.id name).0 same), bindings_of-All P name bindings h.1)
  | inr other ↦ rw other (bindings_of-All P name bindings h.1)
]

pub mark_used-All :
    (c : Catalog) (lab : LabManifest) (found : Option MatrixBinding) (bindings : List MatrixBinding)
    → All (IsBindingOf c lab) bindings
    → All (IsBindingOf c lab) (mark_used found bindings)
mark_used-All c lab none bindings h = h
mark_used-All c lab (some binding) [] h = h
mark_used-All c lab (some binding) (b ∷ bindings) h =
    (marked b (str_eq b.id binding.id) h.0, mark_used-All c lab (some binding) bindings h.1)
  where
    marked :
        (other : MatrixBinding) (same : Bool)
        → IsBindingOf c lab other
        → IsBindingOf c lab (if same then record other { used = true } else other)
    marked other true (source, used, there, eq) =
        let mark : MatrixBinding → MatrixBinding = λ o. record o { used = true } in
        (source, true, there, ap mark eq)
    marked other false k = k
