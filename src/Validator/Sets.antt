-- ===== src/Validator/Sets.antt =====
-- internal/validator/coverage.go: laws of the sets of texts.
use works_on_my_whiteboard.Prelude.{
  ◌+◌, ◌≡◌, Bool, true, false, not, ◌&&◌, List, [], ◌∷◌, String, refl, ap, ◌∙◌, arith, All, keep_if,
  length, Bool-cases, inl, inr,
}
use works_on_my_whiteboard.Prelude.Dict.{str_eq, str_eq_iff}
use works_on_my_whiteboard.Prelude.Sort.{
  stable_sort, insert_sorted, text_lt, text_lt-total, text_lt-IsWeakOrder, stable_sort-IsSorted,
  IsSorted,
}
use works_on_my_whiteboard.Validator.{contains, make_string_set, sorted, sorted_difference}

pub contains-make_string_set :
    (v : String) (values : List String) → contains v (make_string_set values) ≡ contains v values
unfolding make_string_set
contains-make_string_set v [] = refl
contains-make_string_set v (x ∷ values) =
    ground
      (arith, contains-make_string_set v values, contains-make_string_set x values, str_eq_iff x v)

-- No text stands twice.
abbrev pub IsDistinct : List String → Type 0
IsDistinct [] = Unit
IsDistinct (x ∷ xs) = (contains x xs ≡ false) × IsDistinct xs

pub make_string_set-IsDistinct : (values : List String) → IsDistinct (make_string_set values)
unfolding make_string_set
make_string_set-IsDistinct [] = tt
make_string_set-IsDistinct (x ∷ values) = elim (Bool-cases (contains x (make_string_set values))) [
  | inl there ↦ rw there (make_string_set-IsDistinct values)
  | inr new ↦ rw new (new, make_string_set-IsDistinct values)
]

pub contains-keep_if :
    (v : String) (keep : String → Bool) (xs : List String)
    → contains v (keep_if keep xs) ≡ (contains v xs && keep v)
contains-keep_if v keep [] = refl
contains-keep_if v keep (x ∷ xs) = elim (Bool-cases (str_eq x v)) [
  | inl same ↦
      let eq = (str_eq_iff x v).0 same in
      let same_keep = ap keep eq in ground (arith, contains-keep_if v keep xs)
  | inr other ↦ ground (arith, contains-keep_if v keep xs)
]

pub keep_if-IsDistinct :
    (keep : String → Bool) (xs : List String) → IsDistinct xs → IsDistinct (keep_if keep xs)
keep_if-IsDistinct keep [] h = tt
keep_if-IsDistinct keep (x ∷ xs) h = elim (Bool-cases (keep x)) [
  | inl kept ↦
      rw kept (ground (arith, contains-keep_if x keep xs, h.0), keep_if-IsDistinct keep xs h.1)
  | inr dropped ↦ rw dropped (keep_if-IsDistinct keep xs h.1)
]

module _ (lt : String → String → Bool) where
  contains-insert_sorted :
      (v x : String) (xs : List String) → contains v (insert_sorted lt x xs) ≡ contains v (x ∷ xs)
  unfolding insert_sorted
  contains-insert_sorted v x [] = refl
  contains-insert_sorted v x (y ∷ ys) = ground (arith, contains-insert_sorted v x ys)

  length-insert_sorted :
      (x : String) (xs : List String) → length (insert_sorted lt x xs) ≡ length xs + 1
  unfolding insert_sorted
  length-insert_sorted x [] = refl
  length-insert_sorted x (y ∷ ys) = ground (arith, length-insert_sorted x ys)

pub contains-sorted : (v : String) (xs : List String) → contains v (sorted xs) ≡ contains v xs
unfolding sorted stable_sort
contains-sorted v [] = refl
contains-sorted v (x ∷ xs) =
    ground
      (arith, contains-insert_sorted text_lt v x (stable_sort text_lt xs), contains-sorted v xs)

pub length-sorted : (xs : List String) → length (sorted xs) ≡ length xs
unfolding sorted stable_sort
length-sorted [] = refl
length-sorted (x ∷ xs) =
    omega (arith, length-insert_sorted text_lt x (stable_sort text_lt xs), length-sorted xs)

-- Each text comes strictly before those after it.
abbrev pub IsIncreasing : List String → Type 0
IsIncreasing [] = Unit
IsIncreasing (x ∷ xs) = All (λ y. text_lt x y ≡ true) xs × IsIncreasing xs

insert_sorted-IsDistinct :
    (x : String) (xs : List String)
    → contains x xs ≡ false
    → IsDistinct xs
    → IsDistinct (insert_sorted text_lt x xs)
unfolding insert_sorted
insert_sorted-IsDistinct x [] new h = (refl, tt)
insert_sorted-IsDistinct x (y ∷ ys) new h = elim (Bool-cases (text_lt y x)) [
  | inl less ↦
      let apart : (str_eq y x ≡ false) × (contains x ys ≡ false) = ground arith in
      rw less (
        ground (arith, contains-insert_sorted text_lt y x ys, h.0, str_eq_iff x y, str_eq_iff y x),
        insert_sorted-IsDistinct x ys apart.1 h.1,
      )
  | inr not_less ↦ rw not_less (new, h)
]

sorted-IsDistinct : (xs : List String) → IsDistinct xs → IsDistinct (sorted xs)
unfolding sorted stable_sort
sorted-IsDistinct [] h = tt
sorted-IsDistinct (x ∷ xs) h =
    insert_sorted-IsDistinct x (stable_sort text_lt xs) (ground (arith, contains-sorted x xs))
      (sorted-IsDistinct xs h.1)

increasing : (xs : List String) → IsSorted text_lt xs → IsDistinct xs → IsIncreasing xs
increasing [] s d = tt
increasing (x ∷ xs) s d = (after x xs s.0 d.0, increasing xs s.1 d.1)
  where
    after :
        (x : String) (xs : List String)
        → All (λ y. text_lt y x ≡ false) xs
        → contains x xs ≡ false
        → All (λ y. text_lt x y ≡ true) xs
    after x [] s d = tt
    after x (y ∷ xs) s d =
        (ground (arith, text_lt-total x y, str_eq_iff y x, s.0), after x xs s.1 (ground arith))

pub sorted-IsIncreasing : (xs : List String) → IsDistinct xs → IsIncreasing (sorted xs)
unfolding sorted
sorted-IsIncreasing xs h =
    increasing (stable_sort text_lt xs) (stable_sort-IsSorted text_lt xs text_lt-IsWeakOrder)
      (sorted-IsDistinct xs h)

-- What a difference holds.
pub contains-sorted_difference :
    (v : String) (left right : List String)
    → contains v (sorted_difference left right) ≡ (contains v left && not (contains v right))
unfolding sorted_difference
contains-sorted_difference v left right =
    let kept = keep_if (λ value. not (contains value right)) left in
    contains-sorted v (make_string_set kept)
    ∙ contains-make_string_set v kept
    ∙ contains-keep_if v (λ value. not (contains value right)) left

pub sorted_difference-IsIncreasing :
    (left right : List String) → IsIncreasing (sorted_difference left right)
unfolding sorted_difference
sorted_difference-IsIncreasing left right =
    sorted-IsIncreasing _
      (make_string_set-IsDistinct (keep_if (λ value. not (contains value right)) left))

make_string_set_of_distinct :
    (xs : List String) → IsDistinct xs → length (make_string_set xs) ≡ length xs
unfolding make_string_set
make_string_set_of_distinct [] h = refl
make_string_set_of_distinct (x ∷ xs) h =
    ground (arith, contains-make_string_set x xs, h.0, make_string_set_of_distinct xs h.1)

pub length-sorted_difference :
    (left right : List String)
    → IsDistinct left
    → length (sorted_difference left right)
      ≡ length (keep_if (λ value. not (contains value right)) left)
unfolding sorted_difference
length-sorted_difference left right h =
    let kept = keep_if (λ value. not (contains value right)) left in
    length-sorted (make_string_set kept)
    ∙ make_string_set_of_distinct kept
        (keep_if-IsDistinct (λ value. not (contains value right)) left h)
