-- ===== src/Release.antt =====
-- internal/release/model.go and validate.go: the manifest of a release and its validation.
pub mod Canonical
mod Examples
use works_on_my_whiteboard.Prelude.{
  ℕ, ◌==◌, Bool, true, false, not, ◌&&◌, ◌||◌, Option, none, some, List, [], ◌∷◌, if◌then◌else◌,
  String, any_of, is_nil, GoError, sentinel, wrap, message, Sentinel, check, ◌else_check◌,
}
use works_on_my_whiteboard.Prelude.Int.{ℤ, pos, negsuc, ltb_ℤ}
use works_on_my_whiteboard.Prelude.Dict.{str_eq}
use works_on_my_whiteboard.Prelude.Sort.{text_lt}
use works_on_my_whiteboard.Harness.Spec.{is_stable_id}
use works_on_my_whiteboard.Evidence.{is_digest, valid_attempt_id}

pub record Selection : Type 0 where
  pub role : String
  pub lab_id : String
  pub required_run_id : String
  pub binding_id : String
  pub claim_id : String
  pub implementation_id : String
  pub adapter_id : String
  pub evidence_id : String
  pub content_digest : String

-- A nil slice of selections is refused like an empty one.
pub record Manifest : Type 0 where
  pub schema_version : ℕ
  pub input_digest : String
  pub profile : String
  pub run_set_id : String
  pub selections : List Selection

unfoldable pub valid_profile : String → Bool
valid_profile profile = str_eq profile "smoke" || str_eq profile "deep"

unfoldable pub valid_role : String → String → String → Bool
valid_role role implementation_id adapter_id =
    if str_eq role "baseline" || str_eq role "variant"
    then str_eq adapter_id ""
    else str_eq role "adapter" && not (str_eq adapter_id "") && str_eq adapter_id implementation_id

-- The six fields of a cell, and the role.
abbrev pub cell_fields : List (Selection → String)
cell_fields =
    (λ s. s.lab_id)
    ∷ (λ s. s.required_run_id)
    ∷ (λ s. s.binding_id)
    ∷ (λ s. s.claim_id)
    ∷ (λ s. s.implementation_id)
    ∷ (λ s. s.adapter_id)
    ∷ []

abbrev pub order_fields : List (Selection → String)
order_fields =
    (λ s. s.lab_id)
    ∷ (λ s. s.required_run_id)
    ∷ (λ s. s.binding_id)
    ∷ (λ s. s.claim_id)
    ∷ (λ s. s.implementation_id)
    ∷ (λ s. s.adapter_id)
    ∷ (λ s. s.role)
    ∷ []

unfoldable pub compare_by : List (Selection → String) → Selection → Selection → ℤ
compare_by [] left right = pos 0
compare_by (field ∷ fields) left right =
    let rest = compare_by fields left right in
    if text_lt (field left) (field right)
    then negsuc 0
    else if text_lt (field right) (field left)
    then pos 1
    else rest

unfoldable pub compare_cell_role : Selection → Selection → ℤ
compare_cell_role left right = compare_by order_fields left right

-- key == other, of two six-field keys.
abbrev pub same_by : List (Selection → String) → Selection → Selection → Bool
same_by [] a b = true
same_by (field ∷ fields) a b = str_eq (field a) (field b) && same_by fields a b

abbrev pub same_cell : Selection → Selection → Bool
same_cell a b = same_by cell_fields a b

abbrev pub check_id : String → String → Bool → Option GoError
check_id name value required =
    check (not (str_eq value "" && not required) && not (is_stable_id value)) (message name)

unfoldable pub validate_selection : Selection → Option GoError
validate_selection selection =
    check_id "lab_id is invalid" selection.lab_id true
    else_check check_id "required_run_id is invalid" selection.required_run_id true
    else_check check_id "binding_id is invalid" selection.binding_id true
    else_check check_id "claim_id is invalid" selection.claim_id true
    else_check check_id "implementation_id is invalid" selection.implementation_id true
    else_check check_id "adapter_id is invalid" selection.adapter_id false
    else_check check
        (not (valid_role selection.role selection.implementation_id selection.adapter_id))
        (message "role/adapter identity is invalid")
    else_check check (not (valid_attempt_id selection.evidence_id "run-"))
        (message "evidence_id is invalid")
    else_check check (not (is_digest selection.content_digest))
        (message "content_digest is invalid")

abbrev pub invalid : String → GoError
invalid reason = wrap reason (sentinel Sentinel.manifest_invalid)

-- `invalid` with an error that is printed with %v.
abbrev pub invalid_if : String → Option GoError → Option GoError
invalid_if reason none = none
invalid_if reason (some e) = some (invalid reason)

abbrev pub is_out_of_order : Option Selection → Selection → Bool
is_out_of_order none selection = false
is_out_of_order (some previous) selection =
    not (ltb_ℤ (compare_cell_role previous selection) (pos 0))

-- The loop over the selections: the cells and the evidence IDs that are seen are those of the
-- selections before.
unfoldable pub check_selections :
    List Selection → Option Selection → List Selection → Option GoError
check_selections seen previous [] = none
check_selections seen previous (selection ∷ selections) =
    invalid_if "selection" (validate_selection selection)
    else_check check (any_of (λ other. same_cell other selection) seen)
        (invalid "selection repeats cell")
    else_check check (any_of (λ other. str_eq other.evidence_id selection.evidence_id) seen)
        (invalid "selection reuses evidence ID")
    else_check check (is_out_of_order previous selection)
        (invalid "selections are not in canonical matrix order")
    else_check check_selections (selection ∷ seen) (some selection) selections

unfoldable pub validate_manifest : Manifest → Option GoError
validate_manifest manifest =
    check (not (manifest.schema_version == 1)) (invalid "schema_version")
    else_check check (not (is_digest manifest.input_digest)) (invalid "input_digest")
    else_check check (not (valid_profile manifest.profile)) (invalid "profile is not closed")
    else_check check (not (valid_attempt_id manifest.run_set_id "set-"))
        (invalid "run_set_id is invalid")
    else_check check (is_nil manifest.selections)
        (invalid "selections must be explicit and nonempty")
    else_check check_selections [] none manifest.selections
