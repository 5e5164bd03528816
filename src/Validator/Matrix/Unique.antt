-- ===== src/Validator/Matrix/Unique.antt =====
-- internal/validator/matrix.go: cells of which no two have one identity, as they are added and sorted.
use works_on_my_whiteboard.Prelude.{
  ◌≡◌, ◌≢◌, Bool, true, false, List, [], ◌∷◌, ◌++◌, String, refl, sym, arith, ap, All, All-map,
  All-append, any_of, Bool-cases, inl, inr,
}
use works_on_my_whiteboard.Prelude.Dict.{str_eq_iff}
use works_on_my_whiteboard.Prelude.Sort.{
  insert_sorted, stable_sort, All-insert_sorted, All-stable_sort,
}
use works_on_my_whiteboard.Validator.Matrix.Build.{MatrixCell, matrix_cell_identity, texts_eq}

pub texts_eq_refl : (ss : List String) → texts_eq ss ss ≡ true
texts_eq_refl [] = refl
texts_eq_refl (s ∷ ss) = ground (arith, str_eq_iff s s, texts_eq_refl ss)

abbrev pub Differs : MatrixCell → MatrixCell → Type 0
Differs a b = matrix_cell_identity a ≢ matrix_cell_identity b

Differs-sym : (a b : MatrixCell) → Differs a b → Differs b a
Differs-sym a b h same = h (sym same)

-- No two cells have one identity.
abbrev pub IsUnique : List MatrixCell → Type 0
IsUnique [] = Unit
IsUnique (cell ∷ cells) = All (Differs cell) cells × IsUnique cells

pub IsUnique-snoc :
    (cells : List MatrixCell) (cell : MatrixCell)
    → All (λ other. Differs other cell) cells
    → IsUnique cells
    → IsUnique (cells ++ cell ∷ [])
IsUnique-snoc [] cell new h = (tt, tt)
IsUnique-snoc (other ∷ cells) cell new h = (
  All-append (Differs other) cells (cell ∷ []) h.0 (new.0, tt),
  IsUnique-snoc cells cell new.1 h.1,
)

insert_sorted-IsUnique :
    (lt : MatrixCell → MatrixCell → Bool) (cell : MatrixCell) (cells : List MatrixCell)
    → IsUnique (cell ∷ cells)
    → IsUnique (insert_sorted lt cell cells)
unfolding insert_sorted
insert_sorted-IsUnique lt cell [] h = h
insert_sorted-IsUnique lt cell (other ∷ cells) h = elim (Bool-cases (lt other cell)) [
  | inl less ↦ rw less (
    All-insert_sorted lt (Differs other) cell cells (Differs-sym cell other h.0.0) h.1.0,
    insert_sorted-IsUnique lt cell cells (h.0.1, h.1.1),
  )
  | inr not_less ↦ rw not_less h
]

pub stable_sort-IsUnique :
    (lt : MatrixCell → MatrixCell → Bool) (cells : List MatrixCell)
    → IsUnique cells
    → IsUnique (stable_sort lt cells)
unfolding stable_sort
stable_sort-IsUnique lt [] h = tt
stable_sort-IsUnique lt (cell ∷ cells) h =
    insert_sorted-IsUnique lt cell (stable_sort lt cells)
      (All-sorted cells h.0, stable_sort-IsUnique lt cells h.1)
  where
    All-sorted :
        (others : List MatrixCell)
        → All (Differs cell) others
        → All (Differs cell) (stable_sort lt others)
    All-sorted others k = All-stable_sort lt (Differs cell) others k

-- A key that is not among those seen is of none of the cells seen.
pub unseen-Differs :
    (cell : MatrixCell) (seen : List (List String)) (cells : List MatrixCell)
    → any_of (λ key. texts_eq key (matrix_cell_identity cell)) seen ≡ false
    → All (λ other. any_of (λ key. texts_eq key (matrix_cell_identity other)) seen ≡ true) cells
    → All (λ other. Differs other cell) cells
unseen-Differs cell seen cells unseen h =
    All-map
      (λ other there same. cc (ap (λ k. any_of (λ key. texts_eq key k) seen) same, there, unseen))
      cells h
