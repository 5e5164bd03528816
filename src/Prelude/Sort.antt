-- ===== src/Prelude/Sort.antt =====
-- Go's sort.SliceStable, sort.Slice on distinct keys, and the order of texts.
use Prim.Native.Nat.{ℕ}
use Prim.Native.String.{String}
use mathlib.Core.Path.{◌≡◌, refl, ap₂}
use mathlib.Core.Bool.{Bool, true, false, ◌&&◌, ◌||◌}
use mathlib.Core.Logic.{inl, inr}
use mathlib.Core.List.{List, [], ◌∷◌, Perm}
use mathlib.Core.List.Perm
use native.Mathlib.Omega.{arith}
use text.Mathlib.TextEquality.{Char-path}
use works_on_my_whiteboard.Prelude.Tests.{ltb, ◌==◌, if◌then◌else◌, Bool-cases}
use works_on_my_whiteboard.Prelude.Lists.{All, All-map}
use works_on_my_whiteboard.Prelude.Text.{codes}

-- A Boolean test that orders elements, up to those that neither comes before.
pub record IsWeakOrder {ℓ} {A : Type ℓ} (lt : A → A → Bool) : Type ℓ where
  pub asym : (a b : A) → lt a b ≡ true → lt b a ≡ false
  pub neg_trans : (a b c : A) → lt a b ≡ false → lt b c ≡ false → lt a c ≡ false

module _ {ℓ} {A : Type ℓ} (lt : A → A → Bool) where
  -- Before the first element that is not less: equal elements keep their order.
  unfoldable pub insert_sorted : A → List A → List A
  insert_sorted x [] = x ∷ []
  insert_sorted x (y ∷ ys) = if lt y x then y ∷ insert_sorted x ys else x ∷ y ∷ ys

  unfoldable pub stable_sort : List A → List A
  stable_sort [] = []
  stable_sort (x ∷ xs) = insert_sorted x (stable_sort xs)

  -- No element stands before a lesser one.
  abbrev pub IsSorted : List A → Type 0
  IsSorted [] = Unit
  IsSorted (x ∷ xs) = All (λ y. lt y x ≡ false) xs × IsSorted xs

  insert_sorted-perm : (x : A) (xs : List A) → Perm (insert_sorted x xs) (x ∷ xs)
  unfolding insert_sorted
  insert_sorted-perm x [] = Perm.refl (x ∷ [])
  insert_sorted-perm x (y ∷ ys) = elim (Bool-cases (lt y x)) [
    | inl less ↦ rw less (Perm.trans (Perm.cons y (insert_sorted-perm x ys)) (Perm.swap x y ys))
    | inr not_less ↦ rw not_less (Perm.refl (x ∷ y ∷ ys))
  ]

  pub stable_sort-perm : (xs : List A) → Perm (stable_sort xs) xs
  unfolding stable_sort
  stable_sort-perm [] = Perm.refl []
  stable_sort-perm (x ∷ xs) =
      Perm.trans (insert_sorted-perm x (stable_sort xs)) (Perm.cons x (stable_sort-perm xs))

  pub All-insert_sorted {κ} :
      (P : A → Type κ) (x : A) (xs : List A) → P x → All P xs → All P (insert_sorted x xs)
  unfolding insert_sorted
  All-insert_sorted P x [] p h = (p, tt)
  All-insert_sorted P x (y ∷ ys) p h = elim (Bool-cases (lt y x)) [
    | inl less ↦ rw less (h.0, All-insert_sorted P x ys p h.1)
    | inr not_less ↦ rw not_less (p, h)
  ]

  pub All-stable_sort {κ} : (P : A → Type κ) (xs : List A) → All P xs → All P (stable_sort xs)
  unfolding stable_sort
  All-stable_sort P [] h = tt
  All-stable_sort P (x ∷ xs) h =
      All-insert_sorted P x (stable_sort xs) h.0 (All-stable_sort P xs h.1)

  All-of_insert_sorted {κ} :
      (P : A → Type κ) (x : A) (xs : List A) → All P (insert_sorted x xs) → All P (x ∷ xs)
  unfolding insert_sorted
  All-of_insert_sorted P x [] h = h
  All-of_insert_sorted P x (y ∷ ys) h = split (lt y x) (λ k. All-of_insert_sorted P x ys k) h
    where
      split :
          (less : Bool)
          → (All P (insert_sorted x ys) → All P (x ∷ ys))
          → All P (if less then y ∷ insert_sorted x ys else x ∷ y ∷ ys)
          → All P (x ∷ y ∷ ys)
      split true inner h = let (this, rest) = inner h.1 in (this, (h.0, rest))
      split false inner h = h

  pub All-of_stable_sort {κ} : (P : A → Type κ) (xs : List A) → All P (stable_sort xs) → All P xs
  unfolding stable_sort
  All-of_stable_sort P [] h = tt
  All-of_stable_sort P (x ∷ xs) h =
      let (this, rest) = All-of_insert_sorted P x (stable_sort xs) h in
      (this, All-of_stable_sort P xs rest)

  insert_sorted-IsSorted :
      (x : A) (xs : List A) → IsWeakOrder lt → IsSorted xs → IsSorted (insert_sorted x xs)
  unfolding insert_sorted
  insert_sorted-IsSorted x [] o h = (tt, tt)
  insert_sorted-IsSorted x (y ∷ ys) o h = elim (Bool-cases (lt y x)) [
    | inl less ↦ rw less (
      All-insert_sorted (λ z. lt z y ≡ false) x ys (o.asym y x less) h.0,
      insert_sorted-IsSorted x ys o h.1,
    )
    | inr not_less ↦
        rw not_less ((not_less, All-map (λ z before. o.neg_trans z y x before not_less) ys h.0), h)
  ]

  pub stable_sort-IsSorted : (xs : List A) → IsWeakOrder lt → IsSorted (stable_sort xs)
  unfolding stable_sort
  stable_sort-IsSorted [] o = tt
  stable_sort-IsSorted (x ∷ xs) o =
      insert_sorted-IsSorted x (stable_sort xs) o (stable_sort-IsSorted xs o)

lex_lt : List ℕ → List ℕ → Bool
lex_lt [] [] = false
lex_lt [] (y ∷ ys) = true
lex_lt (x ∷ xs) [] = false
lex_lt (x ∷ xs) (y ∷ ys) = ltb x y || x == y && lex_lt xs ys

-- s < t
unfoldable pub text_lt : String → String → Bool
unfolding lex_lt
text_lt s t = lex_lt (codes s) (codes t)

lex_lt_irrefl : (xs : List ℕ) → lex_lt xs xs ≡ false
unfolding lex_lt
lex_lt_irrefl [] = refl
lex_lt_irrefl (x ∷ xs) = ground (arith, lex_lt_irrefl xs)

lex_lt_trans : (xs ys zs : List ℕ) → lex_lt xs ys ≡ true → lex_lt ys zs ≡ true → lex_lt xs zs ≡ true
unfolding lex_lt
lex_lt_trans [] [] zs h k = cc
lex_lt_trans [] (y ∷ ys) [] h k = cc
lex_lt_trans [] (y ∷ ys) (z ∷ zs) h k = refl
lex_lt_trans (x ∷ xs) [] zs h k = cc
lex_lt_trans (x ∷ xs) (y ∷ ys) [] h k = cc
lex_lt_trans (x ∷ xs) (y ∷ ys) (z ∷ zs) h k = ground (arith, lex_lt_trans xs ys zs)

lex_lt-total : (xs ys : List ℕ) → lex_lt xs ys ≡ false → lex_lt ys xs ≡ false → xs ≡ ys
unfolding lex_lt
lex_lt-total [] [] h k = refl
lex_lt-total [] (y ∷ ys) h k = cc
lex_lt-total (x ∷ xs) [] h k = cc
lex_lt-total (x ∷ xs) (y ∷ ys) h k = ground (arith, lex_lt-total xs ys)

codes_inj : (s t : String) → codes s ≡ codes t → s ≡ t
codes_inj String.[] String.[] h = refl
codes_inj String.[] (String.◌∷◌ c t) h = cc
codes_inj (String.◌∷◌ c s) String.[] h = cc
codes_inj (String.◌∷◌ c s) (String.◌∷◌ d t) h =
    ap₂ String.◌∷◌ (Char-path c d (cc)) (codes_inj s t (cc))

pub text_lt_irrefl : (s : String) → text_lt s s ≡ false
unfolding text_lt
text_lt_irrefl s = lex_lt_irrefl (codes s)

pub text_lt_trans : (s t u : String) → text_lt s t ≡ true → text_lt t u ≡ true → text_lt s u ≡ true
unfolding text_lt
text_lt_trans s t u h k = lex_lt_trans (codes s) (codes t) (codes u) h k

pub text_lt-total : (s t : String) → text_lt s t ≡ false → text_lt t s ≡ false → s ≡ t
unfolding text_lt
text_lt-total s t h k = codes_inj s t (lex_lt-total (codes s) (codes t) h k)

pub text_lt-IsWeakOrder : IsWeakOrder text_lt
text_lt-IsWeakOrder = record {
  asym = λ s t h. elim (Bool-cases (text_lt t s)) [
    | inl k ↦ cc (text_lt_trans s t s h k, text_lt_irrefl s)
    | inr k ↦ k
  ];
  neg_trans = λ s t u h k. elim (Bool-cases (text_lt s u)) [
    | inr l ↦ l
    | inl l ↦ elim (Bool-cases (text_lt u t)) [
      | inl m ↦ cc (text_lt_trans s u t l m)
      | inr m ↦ cc (text_lt-total t u k m)
    ]
  ];
}
