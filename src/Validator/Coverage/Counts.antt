-- ===== src/Validator/Coverage/Counts.antt =====
-- internal/validator/coverage.go: how the totals of a coverage and its lists of cases agree.
use works_on_my_whiteboard.Prelude.{
  ℕ, ◌+◌, ◌≡◌, Bool, true, false, not, ◌&&◌, some, List, [], ◌∷◌, String, refl, ap, ◌∙◌, arith,
  keep_if, length, map, Bool-cases, inl, inr,
}
use works_on_my_whiteboard.Prelude.Dict.{string_key, str_eq, str_eq_iff, lookup}
use works_on_my_whiteboard.Catalog.{Catalog, CaseManifest}
use works_on_my_whiteboard.Validator.{
  contains, sorted_difference, sorted_entries, index_by_id, case_manifests_by_id,
}
use works_on_my_whiteboard.Validator.Index.{
  contains-of_index, holds_at, lookup-sorted_entries, index_by_id-IsIndex, sorted_entries-IsIndex,
}
use works_on_my_whiteboard.Validator.Sets.{
  IsDistinct, contains-make_string_set, IsIncreasing, make_string_set-IsDistinct,
  contains-sorted_difference, sorted_difference-IsIncreasing, length-sorted_difference,
}
use works_on_my_whiteboard.Validator.Coverage.{
  Coverage, is_complete, compute_coverage, baseline_cases, complete_cases,
}

-- A list splits into what a test keeps and what it drops.
split_length :
    (keep : String → Bool) (xs : List String)
    → length xs ≡ length (keep_if keep xs) + length (keep_if (λ x. not (keep x)) xs)
split_length keep [] = refl
split_length keep (x ∷ xs) = ground (arith, split_length keep xs)

abbrev one_if : Bool → ℕ
one_if true = 1
one_if false = 0

-- One more text to look for is found once more, if it is there.
common_cons :
    (x : String) (xs ys : List String)
    → contains x xs ≡ false
    → IsDistinct ys
    → length (keep_if (λ y. contains y (x ∷ xs)) ys)
      ≡ length (keep_if (λ y. contains y xs) ys) + one_if (contains x ys)
common_cons x xs [] new d = refl
common_cons x xs (y ∷ ys) new d = elim (Bool-cases (str_eq x y)) [
  | inl same ↦
      let eq = (str_eq_iff x y).0 same in
      let here = ap (λ z. contains z xs) eq in
      let gone = ap (λ z. contains z ys) eq in
      ground (arith, common_cons x xs ys new d.1, d.0, str_eq_iff y x)
  | inr other ↦ ground (arith, common_cons x xs ys new d.1, str_eq_iff x y, str_eq_iff y x)
]

-- Two sets have as much in common, whichever is looked up in the other.
common_length :
    (xs ys : List String)
    → IsDistinct xs
    → IsDistinct ys
    → length (keep_if (λ x. contains x ys) xs) ≡ length (keep_if (λ y. contains y xs) ys)
common_length [] ys d e = nothing ys
  where
    nothing : (ys : List String) → 0 ≡ length (keep_if (λ y. contains y []) ys)
    nothing [] = refl
    nothing (y ∷ ys) = nothing ys
common_length (x ∷ xs) ys d e = ground (arith, common_cons x xs ys d.0 e, common_length xs ys d.1 e)

balance :
    (xs ys : List String)
    → IsDistinct xs
    → IsDistinct ys
    → length xs + length (sorted_difference ys xs) ≡ length ys + length (sorted_difference xs ys)
balance xs ys d e = omega (
  arith,
  split_length (λ x. contains x ys) xs,
  split_length (λ y. contains y xs) ys,
  common_length xs ys d e,
  length-sorted_difference xs ys d,
  length-sorted_difference ys xs e,
)

-- A case of the scope, and a case with a complete manifest, by its ID.
abbrev pub is_in_scope : Catalog → String → Bool
is_in_scope c id = contains id (map (λ k. k.id) c.scope.cases)

abbrev pub is_complete_case : Catalog → String → Bool
is_complete_case c id = holds_at is_complete (lookup id (case_manifests_by_id c))

contains-baseline_cases :
    (c : Catalog) (id : String) → contains id (baseline_cases c) ≡ is_in_scope c id
unfolding baseline_cases
contains-baseline_cases c id = contains-make_string_set id (map (λ k. k.id) c.scope.cases)

contains-complete_cases :
    (c : Catalog) (id : String) → contains id (complete_cases c) ≡ is_complete_case c id
unfolding complete_cases case_manifests_by_id
contains-complete_cases c id =
    let cases = index_by_id (λ (m : CaseManifest). m.id) c.cases in
    contains-make_string_set id
      (map (λ e. e.1.id) (keep_if (λ e. is_complete e.1) (sorted_entries cases)))
    ∙ contains-of_index (λ m. m.id) is_complete id (sorted_entries cases)
        (sorted_entries-IsIndex (λ m. m.id) cases (index_by_id-IsIndex (λ m. m.id) c.cases))
    ∙ ap (λ found. holds_at is_complete found) (lookup-sorted_entries id cases)

baseline_cases-IsDistinct : (c : Catalog) → IsDistinct (baseline_cases c)
unfolding baseline_cases
baseline_cases-IsDistinct c = make_string_set-IsDistinct (map (λ k. k.id) c.scope.cases)

complete_cases-IsDistinct : (c : Catalog) → IsDistinct (complete_cases c)
unfolding complete_cases
complete_cases-IsDistinct c =
    make_string_set-IsDistinct
      (map (λ e. e.1.id) (keep_if (λ e. is_complete e.1) (sorted_entries (case_manifests_by_id c))))

-- The totals agree with the lists, which are strictly increasing and hold exactly the cases of the
-- scope without a complete manifest and the complete ones outside the scope.
abbrev pub IsAccount : Catalog → Coverage → Type 0
IsAccount c r =
    (r.baseline_total + length r.unexpected_case_ids ≡ r.complete_total + length r.missing_case_ids)
    × IsIncreasing r.missing_case_ids
    × IsIncreasing r.unexpected_case_ids
    × ((id : String)
        → contains id r.missing_case_ids ≡ (is_in_scope c id && not (is_complete_case c id)))
    × ((id : String)
        → contains id r.unexpected_case_ids ≡ (is_complete_case c id && not (is_in_scope c id)))

-- In the coverage of a catalog the baseline total and the unexpected cases are as many as the complete
-- total and the missing cases; both lists are strictly increasing; a case is missing if and only if it
-- is in the scope without a complete manifest, and unexpected if and only if it has a complete manifest
-- outside the scope.
pub compute_coverage-IsAccount : (c : Catalog) → IsAccount c (compute_coverage (some c))
unfolding compute_coverage
compute_coverage-IsAccount c =
    let baseline = baseline_cases c in
    let complete = complete_cases c in
    (
      balance baseline complete (baseline_cases-IsDistinct c) (complete_cases-IsDistinct c),
      sorted_difference-IsIncreasing baseline complete,
      sorted_difference-IsIncreasing complete baseline,
      λ id.
          rw
            (
              contains-sorted_difference id baseline complete,
              contains-baseline_cases c id,
              contains-complete_cases c id,
            )
            refl,
      λ id.
          rw
            (
              contains-sorted_difference id complete baseline,
              contains-baseline_cases c id,
              contains-complete_cases c id,
            )
            refl,
    )
