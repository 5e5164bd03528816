-- ===== src/Diagnostics.antt =====
-- internal/validator/diagnostic.go: diagnostics and the order in which they are reported.
mod Examples
pub mod Codes
pub mod Order
use mathlib.Core.List.{Perm}
use works_on_my_whiteboard.Prelude.{
  arith, ap, sym, ◌∙◌, ◌≡◌, refl, is_nil, true, false, String, List, [], ◌∷◌, Bool, if◌then◌else◌,
}
use works_on_my_whiteboard.Prelude.Sort.{
  insert_sorted, stable_sort, IsSorted, stable_sort-perm, stable_sort-IsSorted,
}
use works_on_my_whiteboard.Prelude.Lex.{lex_by, lex_by-IsWeakOrder}

abbrev pub mode_development : String
mode_development = "development"

abbrev pub mode_release : String
mode_release = "release"

pub record Diagnostic : Type 0 where
  pub code : String
  pub severity : String
  pub path : String
  pub entity_id : String
  pub message : String

unfoldable pub error_diagnostic : String → String → String → Diagnostic
error_diagnostic code entity_id message = record {
  code = code;
  severity = "error";
  path = "";
  entity_id = entity_id;
  message = message;
}

-- One diagnostic, where a condition holds.
abbrev pub diagnostic_if : Bool → String → String → String → List Diagnostic
diagnostic_if bad code entity_id message =
    if bad then error_diagnostic code entity_id message ∷ [] else []

-- By code, then path, then entity, then message.
abbrev pub report_order : List (Diagnostic → String)
report_order = (λ d. d.code) ∷ (λ d. d.path) ∷ (λ d. d.entity_id) ∷ (λ d. d.message) ∷ []

-- sort.Slice is not stable, which shows at most between diagnostics that differ in severity alone.
unfoldable pub sort_diagnostics : List Diagnostic → List Diagnostic
sort_diagnostics diagnostics = stable_sort (lex_by report_order) diagnostics

pub diagnostic_if-nil :
    (bad : Bool) (code entity_id message : String)
    → diagnostic_if bad code entity_id message ≡ []
    → bad ≡ false
diagnostic_if-nil true code entity_id message h = cc
diagnostic_if-nil false code entity_id message h = refl

inserted :
    (d : Diagnostic) (ds : List Diagnostic)
    → is_nil (insert_sorted (lex_by report_order) d ds) ≡ false
unfolding insert_sorted
inserted d [] = refl
inserted d (other ∷ ds) = ground arith

-- Only nothing is sorted to nothing.
pub sort_diagnostics-nil :
    (diagnostics : List Diagnostic) → sort_diagnostics diagnostics ≡ [] → diagnostics ≡ []
unfolding sort_diagnostics stable_sort
sort_diagnostics-nil [] h = refl
sort_diagnostics-nil (d ∷ diagnostics) h =
    cc (sym (inserted d (stable_sort (lex_by report_order) diagnostics)) ∙ ap (λ ds. is_nil ds) h)
