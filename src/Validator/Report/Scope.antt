-- ===== src/Validator/Report/Scope.antt =====
-- internal/validator/validate.go: the families of a scope whose cases are distinct.
use works_on_my_whiteboard.Prelude.{
  ◌≡◌, false, none, some, Option, List, [], ◌∷◌, map, if◌then◌else◌, String, refl, ap, ◌∙◌, arith,
  All, All-map, append-nil, Bool-cases, inl, inr,
}
use works_on_my_whiteboard.Prelude.Dict.{string_key, str_eq, str_eq_iff, lookup, lookup-insert}
use works_on_my_whiteboard.Diagnostics.{diagnostic_if, diagnostic_if-nil}
use works_on_my_whiteboard.Catalog.{ScopeCase}
use works_on_my_whiteboard.Validator.{contains, add, insert_new, insert_unless}
use works_on_my_whiteboard.Validator.Sets.{IsDistinct}
use works_on_my_whiteboard.Validator.References.{scope_case_diagnostics}
use works_on_my_whiteboard.Validator.Report.{scope_families}

pub scope_case-IsDistinct :
    (families seen : List String) (cases : List ScopeCase)
    → scope_case_diagnostics families seen cases ≡ []
    → All (λ k. contains k.id seen ≡ false) cases × IsDistinct (map (λ k. k.id) cases)
unfolding scope_case_diagnostics
scope_case-IsDistinct families seen [] h = (tt, tt)
scope_case-IsDistinct families seen (k ∷ cases) h =
    let (here, rest) = append-nil _ (scope_case_diagnostics families (add k.id seen) cases) h in
    let (new, known) = append-nil _ (diagnostic_if _ _ _ _) here in
    let fresh : contains k.id seen ≡ false = diagnostic_if-nil _ _ _ _ new in
    let (others, distinct) = scope_case-IsDistinct families (add k.id seen) cases rest in
    (
      (fresh, All-map (λ o absent. ground (arith, fresh)) cases others),
      (none_is cases others, distinct),
    )
  where
    none_is :
        (os : List ScopeCase)
        → All (λ o. contains o.id (add k.id seen) ≡ false) os
        → contains k.id (map (λ o. o.id) os) ≡ false
    none_is [] h = refl
    none_is (o ∷ os) h =
        ground (arith, none_is os h.1, h.0, str_eq_iff k.id o.id, str_eq_iff o.id k.id)

lookup-insert_new :
    (k id family : String) (known : List (String × String))
    → lookup id known ≡ none
    → lookup k (insert_new id family known) ≡ (if str_eq id k then some family else lookup k known)
lookup-insert_new k id family known new =
    ap (λ found. lookup k (insert_unless found id family known)) new
    ∙ lookup-insert id k family known

kept :
    (k family id other : String) (known : List (String × String))
    → lookup k known ≡ some family
    → lookup k (insert_new id other known) ≡ some family
kept k family id other known there = split (lookup id known) refl
  where
    split :
        (found : Option String)
        → lookup id known ≡ found
        → lookup k (insert_unless found id other known) ≡ some family
    split (some old) found = there
    split none new = elim (Bool-cases (str_eq id k)) [
      | inl same ↦ cc (ap (λ i. lookup i known) ((str_eq_iff id k).0 same), new, there)
      | inr apart ↦ lookup-insert id k other known ∙ rw apart there
    ]

scope_families-kept :
    (k family : String) (known : List (String × String)) (cases : List ScopeCase)
    → lookup k known ≡ some family
    → lookup k (scope_families known cases) ≡ some family
unfolding scope_families
scope_families-kept k family known [] there = there
scope_families-kept k family known (o ∷ cases) there =
    scope_families-kept k family (insert_new o.id o.primary_family known) cases
      (kept k family o.id o.primary_family known there)

-- The families of scope cases that are distinct.
pub scope_families_lem :
    (known : List (String × String)) (cases : List ScopeCase)
    → All (λ k. lookup k.id known ≡ none) cases
    → IsDistinct (map (λ k. k.id) cases)
    → All (λ k. lookup k.id (scope_families known cases) ≡ some k.primary_family) cases
unfolding scope_families
scope_families_lem known [] new distinct = tt
scope_families_lem known (k ∷ cases) new distinct = (
  scope_families-kept k.id k.primary_family (insert_new k.id k.primary_family known) cases (
      lookup-insert_new k.id k.id k.primary_family known new.0
      ∙ ground (arith, str_eq_iff k.id k.id)),
  scope_families_lem (insert_new k.id k.primary_family known) cases
      (still_new cases new.1 distinct.0) distinct.1,
)
  where
    still_new :
        (os : List ScopeCase)
        → All (λ o. lookup o.id known ≡ none) os
        → contains k.id (map (λ o. o.id) os) ≡ false
        → All (λ o. lookup o.id (insert_new k.id k.primary_family known) ≡ none) os
    still_new [] h apart = tt
    still_new (o ∷ os) h apart = (
      lookup-insert_new o.id k.id k.primary_family known new.0
          ∙ ground (arith, h.0, str_eq_iff k.id o.id, str_eq_iff o.id k.id),
      still_new os h.1 (ground arith),
    )
