-- ===== src/Validator/Matrix/Runs.antt =====
-- internal/validator/matrix.go: what a run that passes its checks has.
use works_on_my_whiteboard.Prelude.{
  ◌≡◌, Bool, true, ◌&&◌, Option, none, some, List, [], ◌∷◌, map, if◌then◌else◌, String, arith, All,
  All-append, keep_if, is_nil, Bool-cases, inl, inr,
}
use works_on_my_whiteboard.Prelude.Dict.{string_key, str_eq, str_eq_iff, lookup}
use works_on_my_whiteboard.Catalog.{
  LabManifest, AdapterManifest, RequiredRun, AdapterRequirement, lifecycle_status_complete,
}
use works_on_my_whiteboard.Validator.{contains, add, make_string_set}
use works_on_my_whiteboard.Validator.Sets.{contains-make_string_set}
use works_on_my_whiteboard.Validator.Index.{holds_at}
use works_on_my_whiteboard.Validator.Schema.{missing_complete_adapter_fields}
use works_on_my_whiteboard.Validator.Matrix.{
  MatrixBinding, check_run, check_binding, check_variants, check_adapter, check_adapters,
  binding_kind_matches_lab,
}
use works_on_my_whiteboard.Validator.Matrix.Build.{MatrixChoice, matrix_choices}

-- A complete adapter, with every field that such an adapter needs.
abbrev pub is_ready : AdapterManifest → Bool
is_ready adapter =
    str_eq adapter.status lifecycle_status_complete
    && is_nil (missing_complete_adapter_fields adapter)

-- What a choice names: an adapter that is ready, or an implementation of the lab.
abbrev pub is_supported : LabManifest → List (String × AdapterManifest) → String → String → Bool
is_supported lab adapters role id =
    if str_eq role "adapter"
    then holds_at is_ready (lookup id adapters)
    else contains id lab.implementations

abbrev Supported : LabManifest → List (String × AdapterManifest) → MatrixChoice → Type 0
Supported lab adapters choice =
    is_supported lab adapters choice.role choice.implementation_id ≡ true

check_variants-Supported :
    (lab : LabManifest) (adapters : List (String × AdapterManifest)) (seen variants : List String)
    → (check_variants lab seen variants).valid ≡ true
    → All
        (Supported lab adapters)
        (map (λ id. record { role = "variant"; implementation_id = id; adapter_id = "" }) variants)
unfolding check_variants
check_variants-Supported lab adapters seen [] h = tt
check_variants-Supported lab adapters seen (variant ∷ variants) h = (
  ground (arith, contains-make_string_set variant lab.implementations),
  check_variants-Supported lab adapters (add variant seen) variants (ground arith),
)

check_adapter_ready :
    (lab : LabManifest) (found : Option AdapterManifest)
    → str_eq lab.status lifecycle_status_complete ≡ true
    → (check_adapter lab found).valid ≡ true
    → holds_at is_ready found ≡ true
unfolding check_adapter
check_adapter_ready lab none complete h = cc
check_adapter_ready lab (some adapter) complete h = ground arith

check_adapters-Supported :
    (lab : LabManifest) (adapters : List (String × AdapterManifest)) (seen : List String)
    (requirements : List AdapterRequirement)
    → str_eq lab.status lifecycle_status_complete ≡ true
    → (check_adapters lab adapters seen requirements).valid ≡ true
    → All (Supported lab adapters) (
        map
          (λ r. record { role = "adapter"; implementation_id = r.id; adapter_id = r.id })
          (keep_if (λ r. r.required) requirements))
unfolding check_adapters
check_adapters-Supported lab adapters seen [] complete h = tt
check_adapters-Supported lab adapters seen (r ∷ requirements) complete h =
    let rest =
      check_adapters-Supported lab adapters (add r.id seen) requirements complete (ground arith) in
    elim (Bool-cases r.required) [
      | inl required ↦
          rw required (check_adapter_ready lab (lookup r.id adapters) complete (ground arith), rest)
      | inr optional ↦ rw optional rest
    ]

-- Each choice of a run that passes is supported.
pub check_run-Supported :
    (lab : LabManifest) (adapters : List (String × AdapterManifest)) (binding : MatrixBinding)
    (run : RequiredRun)
    → str_eq lab.status lifecycle_status_complete ≡ true
    → (check_run lab adapters (some binding) run).valid ≡ true
    → All
        (λ choice. is_supported lab adapters choice.role choice.implementation_id ≡ true)
        (matrix_choices run)
unfolding check_run matrix_choices
check_run-Supported lab adapters binding run complete h = (
  ground (arith, contains-make_string_set run.baseline lab.implementations),
  All-append (Supported lab adapters)
      (map (λ id. record { role = "variant"; implementation_id = id; adapter_id = "" })
        run.variants)
      (map (λ r. record { role = "adapter"; implementation_id = r.id; adapter_id = r.id })
        (keep_if (λ r. r.required) run.adapters))
      (check_variants-Supported lab adapters (make_string_set (run.baseline ∷ [])) run.variants
        (ground arith))
      (check_adapters-Supported lab adapters [] run.adapters complete (ground arith)),
)

-- The binding of a run that passes is of the lab's kind, its claim is owned, and the workloads agree.
pub check_run_binding :
    (lab : LabManifest) (adapters : List (String × AdapterManifest)) (binding : MatrixBinding)
    (run : RequiredRun)
    → (check_run lab adapters (some binding) run).valid ≡ true
    → (binding_kind_matches_lab binding.kind lab.kind ≡ true)
      × (binding.claim_valid ≡ true)
      × (run.workload ≡ binding.workload)
unfolding check_run check_binding
check_run_binding lab adapters binding run h =
    (ground arith, ground arith, (str_eq_iff run.workload binding.workload).0 (ground arith))
