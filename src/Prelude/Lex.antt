-- ===== src/Prelude/Lex.antt =====
-- The order of records by several texts, one after the other, as the program's sort.Slice calls have it.
use Prim.Native.String.{String}
use mathlib.Core.Path.{◌≡◌, refl}
use mathlib.Core.Bool.{Bool, true, false}
use mathlib.Core.List.{List, [], ◌∷◌}
use native.Mathlib.Omega.{arith}
use works_on_my_whiteboard.Prelude.Tests.{if◌then◌else◌}
use works_on_my_whiteboard.Prelude.Dict.{str_eq, str_eq_iff}
use works_on_my_whiteboard.Prelude.Sort.{text_lt, text_lt-total, text_lt-IsWeakOrder, IsWeakOrder}

module _ {A : Type 0} where
  unfoldable pub lex_by : List (A → String) → A → A → Bool
  lex_by [] a b = false
  lex_by (f ∷ fs) a b = if str_eq (f a) (f b) then lex_by fs a b else text_lt (f a) (f b)

  lex_by_asym : (fs : List (A → String)) (a b : A) → lex_by fs a b ≡ true → lex_by fs b a ≡ false
  unfolding lex_by
  lex_by_asym [] a b h = refl
  lex_by_asym (f ∷ fs) a b h = ground (
    arith,
    lex_by_asym fs a b,
    str_eq_iff (f a) (f b),
    str_eq_iff (f b) (f a),
    text_lt-IsWeakOrder.asym (f a) (f b),
  )

  lex_by_neg_trans :
      (fs : List (A → String)) (a b c : A)
      → lex_by fs a b ≡ false
      → lex_by fs b c ≡ false
      → lex_by fs a c ≡ false
  unfolding lex_by
  lex_by_neg_trans [] a b c h k = refl
  lex_by_neg_trans (f ∷ fs) a b c h k = ground (
    arith,
    lex_by_neg_trans fs a b c,
    str_eq_iff (f a) (f b),
    str_eq_iff (f b) (f c),
    str_eq_iff (f a) (f c),
    text_lt-IsWeakOrder.neg_trans (f a) (f b) (f c),
    text_lt-total (f a) (f b),
    text_lt-total (f b) (f c),
  )

  pub lex_by-IsWeakOrder : (fs : List (A → String)) → IsWeakOrder (lex_by fs)
  lex_by-IsWeakOrder fs = record {
    asym = λ a b h. lex_by_asym fs a b h;
    neg_trans = λ a b c h k. lex_by_neg_trans fs a b c h k;
  }
