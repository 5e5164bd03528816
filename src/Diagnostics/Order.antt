-- ===== src/Diagnostics/Order.antt =====
-- internal/validator/diagnostic.go: the report does not depend on the order of the checks.
use mathlib.Core.List.{Perm}
use mathlib.Core.Logic.{∥∥₁_elim}
use native.Mathlib.Nat.{ℕ_set}
use text.Mathlib.TextEquality.{IsScalar-prop}
use works_on_my_whiteboard.Prelude.{◌≡◌, false, List, All, String}
use works_on_my_whiteboard.Prelude.Sort.{IsSorted, stable_sort-perm, stable_sort-IsSorted}
use works_on_my_whiteboard.Prelude.Canonical.{stable_sort-Permᴰ, lex_by-total}
use works_on_my_whiteboard.Prelude.Lex.{lex_by, lex_by-IsWeakOrder}
use works_on_my_whiteboard.Diagnostics.{Diagnostic, report_order, sort_diagnostics}

-- Every check reports with the severity "error".
abbrev pub IsError : Diagnostic → Type 0
IsError d = d.severity ≡ "error"

Diagnostic-ext :
    (a b : Diagnostic)
    → IsError a
    → IsError b
    → All (λ (f : Diagnostic → String). f a ≡ f b) report_order
    → a ≡ b
Diagnostic-ext a b h k same = cc (same.0, same.1.0, same.1.1.0, same.1.1.1.0)

report-total :
    (a b : Diagnostic)
    → IsError a
    → IsError b
    → lex_by report_order a b ≡ false
    → lex_by report_order b a ≡ false
    → a ≡ b
report-total a b h k before after =
    Diagnostic-ext a b h k (lex_by-total report_order a b before after)

diagnostics-set : IsSet (List Diagnostic)
diagnostics-set = hlevel (ℕ_set, IsScalar-prop)

-- The same diagnostics, reported in any order, give the same report, where all have the severity
-- "error"; it holds each of them, and none before one that comes earlier by code, path, entity and
-- message.
pub sort_diagnostics-report_order :
    (xs ys : List Diagnostic)
    → All IsError xs
    → Perm xs ys
    → (sort_diagnostics xs ≡ sort_diagnostics ys)
      × Perm (sort_diagnostics xs) xs
      × IsSorted (lex_by report_order) (sort_diagnostics xs)
unfolding sort_diagnostics
sort_diagnostics-report_order xs ys errors same = (
  ∥∥₁_elim same (diagnostics-set _ _) (λ d.
      stable_sort-Permᴰ (lex_by report_order) IsError (lex_by-IsWeakOrder report_order) report-total
        d errors),
  stable_sort-perm (lex_by report_order) xs,
  stable_sort-IsSorted (lex_by report_order) xs (lex_by-IsWeakOrder report_order),
)
