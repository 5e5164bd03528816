-- ===== src/Validator/Cycle/Walks.antt =====
-- internal/validator/graph.go: walks in a dependency graph, and the lists that hold them.
use works_on_my_whiteboard.Prelude.{
  ℕ, zero, suc, ◌≤◌, ◌<◌, ◌≡◌, Bool, true, false, some, List, [], ◌∷◌, ◌++◌, String, refl, ap,
  subst, arith, All, keep_if, length, get_elem?, Bool-cases, inl, inr,
}
use works_on_my_whiteboard.Prelude.Dict.{string_key, str_eq, str_eq_iff, lookup}
use works_on_my_whiteboard.Validator.{contains}
use works_on_my_whiteboard.Validator.Cycle.{DependencyGraph, targets, drop, without_last, remove}

-- An edge, and a list whose neighbours are edges.
abbrev pub IsEdge : DependencyGraph → String → String → Type 0
IsEdge graph from to = contains to (targets graph from) ≡ true

abbrev pub IsWalk : DependencyGraph → List String → Type 0
IsWalk graph [] = Unit
IsWalk graph (x ∷ []) = Unit
IsWalk graph (x ∷ y ∷ xs) = IsEdge graph x y × IsWalk graph (y ∷ xs)

-- A walk from a node back to it.
abbrev pub IsCycle : DependencyGraph → List String → Type 0
IsCycle graph cycle =
    (node : String) × (inner : List String) × (cycle ≡ node ∷ inner ++ node ∷ [])
    × IsWalk graph cycle

-- Every walk from the node ends.
pub data Ends (graph : DependencyGraph) : String → Type 0 where
  ends :
      {node : String}
      → ((target : String) → IsEdge graph node target → Ends graph target)
      → Ends graph node

pub IsWalk-drop :
    (graph : DependencyGraph) (xs ys : List String) (i : ℕ)
    → i ≤ length xs
    → IsWalk graph (xs ++ ys)
    → IsWalk graph (drop xs i ++ ys)
IsWalk-drop graph xs ys zero low walk = walk
IsWalk-drop graph [] ys (suc i) low walk = walk
IsWalk-drop graph (x ∷ []) ys (suc i) low walk =
    IsWalk-drop graph [] ys i (omega arith) (tail x ys walk)
  where
    tail : (x : String) (ys : List String) → IsWalk graph (x ∷ ys) → IsWalk graph ys
    tail x [] walk = tt
    tail x (y ∷ ys) walk = walk.1
IsWalk-drop graph (x ∷ y ∷ xs) ys (suc i) low walk =
    IsWalk-drop graph (y ∷ xs) ys i (omega arith) walk.1

-- What is dropped up to an element starts with it.
pub drop-get_elem? :
    (xs : List String) (i : ℕ) (x : String)
    → get_elem? xs i ≡ some x
    → (rest : List String) × (drop xs i ≡ x ∷ rest) × (i < length xs)
drop-get_elem? [] i x h = cc
drop-get_elem? (y ∷ xs) zero x h = (xs, cc, omega arith)
drop-get_elem? (y ∷ xs) (suc i) x h =
    let (rest, same, low) = drop-get_elem? xs i x h in (rest, same, omega arith)

-- One more at the end of a walk.
pub IsWalk-snoc :
    (graph : DependencyGraph) (xs : List String) (from to : String)
    → IsWalk graph (xs ++ from ∷ [])
    → IsEdge graph from to
    → IsWalk graph ((xs ++ from ∷ []) ++ to ∷ [])
IsWalk-snoc graph [] from to walk edge = (edge, tt)
IsWalk-snoc graph (x ∷ []) from to walk edge = (walk.0, (edge, tt))
IsWalk-snoc graph (x ∷ y ∷ xs) from to walk edge =
    (walk.0, IsWalk-snoc graph (y ∷ xs) from to walk.1 edge)

pub without_last-snoc : (xs : List String) (x : String) → without_last (xs ++ x ∷ []) ≡ xs
without_last-snoc [] x = refl
without_last-snoc (y ∷ []) x = refl
without_last-snoc (y ∷ z ∷ xs) x = ap (λ r. y ∷ r) (without_last-snoc (z ∷ xs) x)

pub get_elem?-snoc :
    (xs : List String) (x y : String) (i : ℕ)
    → get_elem? (xs ++ y ∷ []) i ≡ some x
    → str_eq y x ≡ false
    → get_elem? xs i ≡ some x
get_elem?-snoc [] x y zero h other = ground (arith, str_eq_iff y x)
get_elem?-snoc [] x y (suc i) h other = h
get_elem?-snoc (z ∷ xs) x y zero h other = h
get_elem?-snoc (z ∷ xs) x y (suc i) h other = get_elem?-snoc xs x y i h other

pub get_elem?-append :
    (xs ys : List String) (x : String) (i : ℕ)
    → get_elem? xs i ≡ some x
    → get_elem? (xs ++ ys) i ≡ some x
get_elem?-append [] ys x i h = cc
get_elem?-append (z ∷ xs) ys x zero h = h
get_elem?-append (z ∷ xs) ys x (suc i) h = get_elem?-append xs ys x i h

pub get_elem?-last : (xs : List String) (x : String) → get_elem? (xs ++ x ∷ []) (length xs) ≡ some x
get_elem?-last [] x = refl
get_elem?-last (y ∷ xs) x = get_elem?-last xs x

pub lookup-remove :
    {V : Type 0} (k j : String) (dict : List (String × V))
    → str_eq k j ≡ false
    → lookup j (remove k dict) ≡ lookup j dict
unfolding lookup remove
lookup-remove k j [] other = refl
lookup-remove k j (entry ∷ dict) other = ground (
  arith,
  lookup-remove k j dict other,
  str_eq_iff entry.0 k,
  str_eq_iff k j,
  str_eq_iff entry.0 j,
)

-- How many of a list pass a test, when another test passes no more, and one of them less.
pub length-keep_if_mono :
    (p q : String → Bool) (xs : List String)
    → ((x : String) → q x ≡ true → p x ≡ true)
    → length (keep_if q xs) ≤ length (keep_if p xs)
length-keep_if_mono p q [] h = omega arith
length-keep_if_mono p q (x ∷ xs) h = ground (arith, h x, length-keep_if_mono p q xs h)

pub length-keep_if_less :
    (p q : String → Bool) (xs : List String) (x : String)
    → ((y : String) → q y ≡ true → p y ≡ true)
    → contains x xs ≡ true
    → p x ≡ true
    → q x ≡ false
    → length (keep_if q xs) < length (keep_if p xs)
length-keep_if_less p q [] x h there passes fails = cc
length-keep_if_less p q (y ∷ xs) x h there passes fails = elim (Bool-cases (str_eq y x)) [
  | inl same ↦
      let eq = (str_eq_iff y x).0 same in
      let p_same = ap p eq in let q_same = ap q eq in ground (arith, length-keep_if_mono p q xs h)
  | inr other ↦ ground (arith, h y, length-keep_if_less p q xs x h)
]

pub contains-All :
    (P : String → Type 0) (xs : List String) (x : String) → All P xs → contains x xs ≡ true → P x
contains-All P [] x all there = cc
contains-All P (y ∷ xs) x all there = elim (Bool-cases (str_eq y x)) [
  | inl same ↦ subst P ((str_eq_iff y x).0 same) all.0
  | inr other ↦ contains-All P xs x all.1 (ground arith)
]
