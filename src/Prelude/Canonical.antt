-- ===== src/Prelude/Canonical.antt =====
-- Sorting forgets the order of what it is given, where ties are equal.
use Prim.Native.String.{String}
use mathlib.Core.Path.{◌≡◌, refl, sym, subst, ◌∙◌}
use mathlib.Core.Bool.{Bool, false}
use mathlib.Core.Logic.{inl, inr}
use mathlib.Core.List.{List, [], ◌∷◌, Permᴰ}
use native.Mathlib.Omega.{arith}
use works_on_my_whiteboard.Prelude.Tests.{Bool-cases}
use works_on_my_whiteboard.Prelude.Lists.{All}
use works_on_my_whiteboard.Prelude.Dict.{str_eq, str_eq_iff}
use works_on_my_whiteboard.Prelude.Sort.{IsWeakOrder, insert_sorted, stable_sort, text_lt-total}
use works_on_my_whiteboard.Prelude.Lex.{lex_by}

module _ {A : Type 0} (lt : A → A → Bool) where
  -- Elements that neither comes before the other are equal.
  abbrev pub IsTotalAt : A → A → Type 0
  IsTotalAt x y = lt x y ≡ false → lt y x ≡ false → x ≡ y

  insert_sorted_comm :
      (x y : A) (zs : List A)
      → IsWeakOrder lt
      → IsTotalAt x y
      → insert_sorted lt x (insert_sorted lt y zs) ≡ insert_sorted lt y (insert_sorted lt x zs)
  unfolding insert_sorted
  insert_sorted_comm x y [] o total = ground (arith, o.asym x y, total)
  insert_sorted_comm x y (z ∷ zs) o total = ground (
    arith,
    insert_sorted_comm x y zs o total,
    o.asym x y,
    o.neg_trans z x y,
    o.neg_trans z y x,
    total,
  )

  All-Permᴰ {κ} : (P : A → Type κ) {xs ys : List A} → Permᴰ xs ys → All P xs → All P ys
  All-Permᴰ P Permᴰ.nil h = tt
  All-Permᴰ P (Permᴰ.cons e d) h = (subst P e h.0, All-Permᴰ P d h.1)
  All-Permᴰ P (Permᴰ.swap e f) h = (subst P f h.1.0, (subst P e h.0, h.1.1))
  All-Permᴰ P (Permᴰ.trans d e) h = All-Permᴰ P e (All-Permᴰ P d h)

  pub stable_sort-Permᴰ {κ} :
      (P : A → Type κ) {xs ys : List A}
      → IsWeakOrder lt
      → ((x y : A) → P x → P y → IsTotalAt x y)
      → Permᴰ xs ys
      → All P xs
      → stable_sort lt xs ≡ stable_sort lt ys
  unfolding stable_sort
  stable_sort-Permᴰ P o total Permᴰ.nil h = refl
  stable_sort-Permᴰ P o total (Permᴰ.cons e d) h = rw (e, stable_sort-Permᴰ P o total d h.1) refl
  stable_sort-Permᴰ P o total (Permᴰ.swap {a} {b} {l = l} e f) h =
      rw (sym e, sym f) (insert_sorted_comm a b (stable_sort lt l) o (total a b h.0 h.1.0))
  stable_sort-Permᴰ P o total (Permᴰ.trans d e) h =
      stable_sort-Permᴰ P o total d h ∙ stable_sort-Permᴰ P o total e (All-Permᴰ P d h)

-- Records that a lexicographic order does not tell apart agree on each of its texts.
pub lex_by-total :
    {A : Type 0} (fs : List (A → String)) (a b : A)
    → lex_by fs a b ≡ false
    → lex_by fs b a ≡ false
    → All (λ (f : A → String). f a ≡ f b) fs
unfolding lex_by
lex_by-total [] a b h k = tt
lex_by-total (f ∷ fs) a b h k = elim (Bool-cases (str_eq (f a) (f b))) [
  | inl same ↦
      let e = (str_eq_iff (f a) (f b)).0 same in
      (e, lex_by-total fs a b (ground (arith, same)) (ground (arith, e, same)))
  | inr differ ↦
      let e =
        text_lt-total (f a) (f b) (ground (arith, differ))
          (ground (arith, differ, str_eq_iff (f b) (f a), str_eq_iff (f a) (f b))) in
      absurd (cc (differ, (str_eq_iff (f a) (f b)).1 e))
]
