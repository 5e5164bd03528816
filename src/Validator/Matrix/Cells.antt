-- ===== src/Validator/Matrix/Cells.antt =====
-- internal/validator/matrix.go: which cells the matrix holds.
use mathlib.Core.List.{Memᴰ}
use works_on_my_whiteboard.Prelude.{
  ◌≡◌, Bool, true, false, ◌&&◌, Option, none, some, List, [], ◌∷◌, map, if◌then◌else◌, String, refl,
  sym, ap, ◌∙◌, arith, All, All-map, fold_left, Bool-cases, inl, inr,
}
use works_on_my_whiteboard.Prelude.Dict.{string_key, str_eq, lookup}
use works_on_my_whiteboard.Prelude.Sort.{stable_sort-IsSorted, IsSorted, All-stable_sort}
use works_on_my_whiteboard.Prelude.Lex.{lex_by, lex_by-IsWeakOrder}
use works_on_my_whiteboard.Catalog.{Catalog, LabManifest, RequiredRun, lifecycle_status_complete}
use works_on_my_whiteboard.Validator.{
  resolve_id, sorted_entries, lab_manifests_by_id, adapter_manifests_by_id,
}
use works_on_my_whiteboard.Validator.Index.{
  lookup_own, lookup-sorted_entries, index_by_id-IsIndex, sorted_entries-IsIndex,
}
use works_on_my_whiteboard.Validator.References.{build_claim_owners, claim_owned_by}
use works_on_my_whiteboard.Validator.Matrix.{
  MatrixBinding, collect_matrix_bindings, bindings_of, with_claim, resolved_binding, check_run,
  binding_kind_matches_lab,
}
use works_on_my_whiteboard.Validator.Matrix.Build.{
  MatrixCell, Building, matrix_cell, matrix_choices, report, add_choices, mark_used, add_runs,
  add_lab, add_labs, lab_matrix_eligible, matrix_order, build_required_matrix,
}
use works_on_my_whiteboard.Validator.Matrix.Unique.{IsUnique, stable_sort-IsUnique}
use works_on_my_whiteboard.Validator.Matrix.Runs.{check_run-Supported, check_run_binding}
use works_on_my_whiteboard.Validator.Matrix.Invariant.{
  IsBindingOf, IsJustified, Inv, add_choices-Inv, resolved_member, bindings_of-All, mark_used-All,
}

lab_matrix_eligible_complete :
    (c : Catalog) (lab : LabManifest)
    → lab_matrix_eligible c lab ≡ true
    → str_eq lab.status lifecycle_status_complete ≡ true
unfolding lab_matrix_eligible
lab_matrix_eligible_complete c lab h = ground arith

-- The cells of a run that passes its checks.
run-IsJustified :
    (c : Catalog) (lab : LabManifest) (run : RequiredRun) (binding : MatrixBinding)
    → lookup lab.id (lab_manifests_by_id c) ≡ some lab
    → Memᴰ run lab.required_runs
    → IsBindingOf c lab binding
    → binding.id ≡ run.binding
    → (check_run lab (adapter_manifests_by_id c) (some binding) run).valid ≡ true
    → lab_matrix_eligible c lab ≡ true
    → All (λ choice. IsJustified c (matrix_cell lab run binding choice)) (matrix_choices run)
run-IsJustified c lab run binding declared required (source, used, bound, eq) named valid eligible =
    let checks = check_run_binding lab (adapter_manifests_by_id c) binding run valid in
    All-map
      (λ choice ok. record {
        lab = lab;
        run = run;
        binding = source;
        declared = declared;
        eligible = eligible;
        required = required;
        bound = bound;
        run_named = refl;
        binding_named = (sym named, sym (ap (λ b. b.id) eq));
        of_kind =
            ap (λ k. binding_kind_matches_lab k lab.kind) (sym (ap (λ b. b.kind) eq)) ∙ checks.0;
        owned =
            ap
              (λ claim_id.
                claim_owned_by (build_claim_owners c) claim_id source.kind
                  (resolve_id c source.kind source.owner_id))
              (ap (λ b. b.claim_id) eq)
            ∙ sym (ap (λ b. b.claim_valid) eq)
            ∙ checks.1;
        same_workload = (refl, checks.2 ∙ ap (λ b. b.workload) eq);
        supported = ok;
      })
      (matrix_choices run)
      (check_run-Supported lab (adapter_manifests_by_id c) binding run
        (lab_matrix_eligible_complete c lab eligible) valid)

-- One run.
run_step :
    (c : Catalog) (lab : LabManifest) (run : RequiredRun) (binding : Option MatrixBinding)
    (st : Building) (valid : Bool)
    → lookup lab.id (lab_manifests_by_id c) ≡ some lab
    → Memᴰ run lab.required_runs
    → ((b : MatrixBinding) → binding ≡ some b → IsBindingOf c lab b × (b.id ≡ run.binding))
    → (check_run lab (adapter_manifests_by_id c) binding run).valid ≡ valid
    → Inv c st
    → Inv c (
        if valid && lab_matrix_eligible c lab
        then add_choices lab run binding
            (report (check_run lab (adapter_manifests_by_id c) binding run).diagnostics st)
        else report (check_run lab (adapter_manifests_by_id c) binding run).diagnostics st)
unfolding add_choices
run_step c lab run binding st false declared required member passes h = h
run_step c lab run none st true declared required member passes h =
    elim (Bool-cases (lab_matrix_eligible c lab)) [
      | inl eligible ↦ rw eligible h
      | inr other ↦ rw other h
    ]
run_step c lab run (some b) st true declared required member passes h =
    elim (Bool-cases (lab_matrix_eligible c lab)) [
      | inr other ↦ rw other h
      | inl eligible ↦
          let (bound, named) = member b refl in
          rw eligible (
            add_choices-Inv c lab run b (matrix_choices run) _
              (run-IsJustified c lab run b declared required bound named passes eligible) h)
    ]

add_runs-Inv :
    (c : Catalog) (lab : LabManifest) (runs : List RequiredRun) (bindings : List MatrixBinding)
    (st : Building)
    → lookup lab.id (lab_manifests_by_id c) ≡ some lab
    → All (λ run. Memᴰ run lab.required_runs) runs
    → All (IsBindingOf c lab) bindings
    → Inv c st
    → Inv c (add_runs c lab runs (bindings, st)).1
unfolding add_runs
add_runs-Inv c lab [] bindings st declared required bound h = h
add_runs-Inv c lab (run ∷ runs) bindings st declared required bound h =
    let binding = resolved_binding run.binding (bindings_of bindings run.binding) in
    add_runs-Inv c lab runs (mark_used binding bindings) _ declared required.1
      (mark_used-All c lab binding bindings bound)
      (run_step c lab run binding st (check_run lab (adapter_manifests_by_id c) binding run).valid
        declared required.0
        (λ b found.
          resolved_member (λ x. IsBindingOf c lab x × (x.id ≡ run.binding)) run.binding
            (bindings_of bindings run.binding) b
            (bindings_of-All (IsBindingOf c lab) run.binding bindings bound) found)
        refl h)

All-members : {A : Type 0} (xs : List A) → All (λ x. Memᴰ x xs) xs
All-members [] = tt
All-members (x ∷ xs) = (Memᴰ.head refl, All-map (λ y there. Memᴰ.tail there) xs (All-members xs))

collected :
    (c : Catalog) (lab : LabManifest) (sources : List MatrixBinding)
    → All (λ source. Memᴰ source (collect_matrix_bindings lab)) sources
    → All (IsBindingOf c lab) (map (with_claim c (build_claim_owners c)) sources)
collected c lab [] h = tt
collected c lab (source ∷ sources) h =
    ((source, source.used, h.0, refl), collected c lab sources h.1)

add_lab-Inv :
    (c : Catalog) (lab : LabManifest) (st : Building)
    → lookup lab.id (lab_manifests_by_id c) ≡ some lab
    → Inv c st
    → Inv c (add_lab c lab st)
unfolding add_lab
add_lab-Inv c lab st declared h =
    add_runs-Inv c lab lab.required_runs
      (map (with_claim c (build_claim_owners c)) (collect_matrix_bindings lab)) _ declared
      (All-members lab.required_runs)
      (collected c lab (collect_matrix_bindings lab) (All-members (collect_matrix_bindings lab))) h

add_every-Inv :
    (c : Catalog) (labs : List (String × LabManifest)) (st : Building)
    → All (λ entry. lookup entry.1.id (lab_manifests_by_id c) ≡ some entry.1) labs
    → Inv c st
    → Inv c (fold_left (λ s entry. add_lab c entry.1 s) st labs)
add_every-Inv c [] st declared h = h
add_every-Inv c (entry ∷ labs) st declared h =
    add_every-Inv c labs (add_lab c entry.1 st) declared.1 (add_lab-Inv c entry.1 st declared.0 h)

-- Sorted by the fields of the identity and the role, with no identity twice, and each cell justified.
abbrev pub IsMatrix : Catalog → List MatrixCell → Type 0
IsMatrix c cells = IsSorted (lex_by matrix_order) cells × IsUnique cells × All (IsJustified c) cells

-- The required matrix of a catalog is sorted by the six fields of the identity and the role; no two
-- cells have the same identity; and each cell is of a lab declared under the cell's lab ID that is
-- eligible for the matrix, of a run and a binding of that lab, which agree with the cell on IDs and
-- workload, where the binding is of the lab's kind and the claim is declared by the owner that it
-- names, and the cell's implementation is one of the lab's or, in the role of an adapter, a complete
-- adapter with no field missing.
pub build_required_matrix-IsMatrix : (c : Catalog) → IsMatrix c (build_required_matrix (some c)).0
unfolding build_required_matrix add_labs lab_manifests_by_id
build_required_matrix-IsMatrix c =
    let labs = lab_manifests_by_id c in
    let index = index_by_id-IsIndex (λ (m : LabManifest). m.id) c.labs in
    let built =
      add_every-Inv c (sorted_entries labs) _
        (All-map (λ entry found. sym (lookup-sorted_entries entry.1.id labs) ∙ found)
          (sorted_entries labs)
          (lookup_own (λ m. m.id) (sorted_entries labs)
            (sorted_entries-IsIndex (λ m. m.id) labs index)))
        (tt, tt, tt) in
    (
      stable_sort-IsSorted (lex_by matrix_order) _ (lex_by-IsWeakOrder matrix_order),
      stable_sort-IsUnique (lex_by matrix_order) _ built.0,
      All-stable_sort (lex_by matrix_order) (IsJustified c) _ built.2,
    )
