-- ===== src/Diagnostics/Examples.antt =====
-- A run of internal/validator/diagnostic.go at concrete inputs.
use mathlib.Core.List.{Perm}
use mathlib.Core.List.Perm
use works_on_my_whiteboard.Prelude.{◌≡◌, refl, List, [], ◌∷◌}
use works_on_my_whiteboard.Prelude.Sort.{IsSorted}
use works_on_my_whiteboard.Prelude.Lex.{lex_by}
use works_on_my_whiteboard.Diagnostics.Order.{sort_diagnostics-report_order}
use works_on_my_whiteboard.Diagnostics.{
  Diagnostic, error_diagnostic, report_order, sort_diagnostics,
}

abbrev two_diagnostics : List Diagnostic
two_diagnostics =
    error_diagnostic "unused_binding" "binding-b" "unused"
    ∷ error_diagnostic "alias_cycle" "case-a" "cycle"
    ∷ []

-- The order of the other check first.
abbrev swapped_diagnostics : List Diagnostic
swapped_diagnostics =
    error_diagnostic "alias_cycle" "case-a" "cycle"
    ∷ error_diagnostic "unused_binding" "binding-b" "unused"
    ∷ []

sort_diagnostics-report_order_example :
    (sort_diagnostics two_diagnostics ≡ sort_diagnostics swapped_diagnostics)
    × Perm (sort_diagnostics two_diagnostics) two_diagnostics
    × IsSorted (lex_by report_order) (sort_diagnostics two_diagnostics)
unfolding error_diagnostic
sort_diagnostics-report_order_example =
    sort_diagnostics-report_order two_diagnostics swapped_diagnostics (refl, (refl, tt))
      (Perm.swap _ _ [])
