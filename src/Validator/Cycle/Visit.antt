-- ===== src/Validator/Cycle/Visit.antt =====
-- internal/validator/graph.go: what one visit of the search for a cycle does.
use works_on_my_whiteboard.Prelude.{
  ℕ, ◌≤◌, ◌<◌, ◌≡◌, Bool, true, not, ◌&&◌, some, List, [], ◌∷◌, ◌++◌, ◌==◌, if◌then◌else◌, String,
  refl, sym, ◌∙◌, subst, arith, All, All-map, keep_if, length, get_elem?,
}
use works_on_my_whiteboard.Prelude.Dict.{string_key, str_eq, str_eq_iff, lookup, lookup-insert}
use works_on_my_whiteboard.Validator.{contains}
use works_on_my_whiteboard.Validator.Cycle.{
  DependencyGraph, Search, Outcome, found, finished, out_of_fuel, and_then, visit_each, colour,
  push, pop, names,
}
use works_on_my_whiteboard.Validator.Cycle.Walks.{
  IsWalk, IsCycle, Ends, length-keep_if_mono, length-keep_if_less,
}

pub colour-push :
    (node n : String) (s : Search)
    → colour (push node s) n ≡ (if str_eq node n then 1 else colour s n)
unfolding colour push
colour-push node n s = ground (arith, lookup-insert node n 1 s.state)

pub colour-pop :
    (node n : String) (s : Search)
    → colour (pop node s) n ≡ (if str_eq node n then 2 else colour s n)
unfolding colour pop
colour-pop node n s = ground (arith, lookup-insert node n 2 s.state)

-- Grey nodes stand in the stack at their indices, and from black nodes every walk ends.
pub record Inv (graph : DependencyGraph) (s : Search) : Type 0 where
  pub walk : IsWalk graph s.stack
  pub indexed :
      (n : String)
      → colour s n ≡ 1
      → (i : ℕ) × (lookup n s.stack_index ≡ some i) × (get_elem? s.stack i ≡ some n)
  pub black : (n : String) → colour s n ≡ 2 → Ends graph n

-- What a finished visit leaves as it was.
pub record After (s s' : Search) : Type 0 where
  pub same_stack : s'.stack ≡ s.stack
  pub grey : (n : String) → (colour s' n ≡ 1) → (colour s n ≡ 1)
  pub still_grey : (n : String) → (colour s n ≡ 1) → (colour s' n ≡ 1)
  pub still_black : (n : String) → (colour s n ≡ 2) → (colour s' n ≡ 2)

abbrev pub is_white : Search → String → Bool
is_white s n = not (colour s n == 1) && not (colour s n == 2)

abbrev pub whites : DependencyGraph → Search → ℕ
whites graph s = length (keep_if (λ n. is_white s n) (names graph))

whites_fewer :
    (graph : DependencyGraph) (s s' : Search) → After s s' → whites graph s' ≤ whites graph s
whites_fewer graph s s' after =
    length-keep_if_mono (λ n. is_white s n) (λ n. is_white s' n) (names graph)
      (λ n white. ground (arith, after.still_grey n, after.still_black n))

pub whites-push :
    (graph : DependencyGraph) (s : Search) (node : String)
    → contains node (names graph) ≡ true
    → is_white s node ≡ true
    → whites graph (push node s) < whites graph s
whites-push graph s node there white =
    length-keep_if_less (λ n. is_white s n) (λ n. is_white (push node s) n) (names graph) node
      (λ n w. ground (arith, colour-push node n s)) there white
      (ground (arith, colour-push node node s, str_eq_iff node node))

pub After-refl : (s : Search) → After s s
After-refl s = record {
  same_stack = refl;
  grey = λ n h. h;
  still_grey = λ n h. h;
  still_black = λ n h. h;
}

After-trans : (s t u : Search) → After s t → After t u → After s u
After-trans s t u h k = record {
  same_stack = k.same_stack ∙ h.same_stack;
  grey = λ n g. h.grey n (k.grey n g);
  still_grey = λ n g. k.still_grey n (h.still_grey n g);
  still_black = λ n b. k.still_black n (h.still_black n b);
}

-- What a visit may return, given so much fuel.
abbrev pub IsGood : DependencyGraph → ℕ → Search → List String → Outcome → Type 0
IsGood graph fuel s nodes (found cycle) = IsCycle graph cycle
IsGood graph fuel s nodes (finished s') =
    Inv graph s' × After s s' × All (λ n. colour s' n ≡ 2) nodes
IsGood graph fuel s nodes out_of_fuel = fuel ≤ whites graph s

-- A node that the stack leads to.
abbrev pub IsNext : DependencyGraph → Search → String → Type 0
IsNext graph s node = IsWalk graph (s.stack ++ node ∷ []) × (contains node (names graph) ≡ true)

abbrev pub IsVisit : DependencyGraph → ℕ → (String → Search → Outcome) → Type 0
IsVisit graph fuel visit_one =
    (node : String) (s : Search)
    → Inv graph s
    → IsNext graph s node
    → IsGood graph fuel s (node ∷ []) (visit_one node s)

-- The loop over nodes keeps what one visit keeps.
pub visit_each-IsGood :
    (graph : DependencyGraph) (fuel : ℕ) (visit_one : String → Search → Outcome)
    (nodes : List String) (s : Search)
    → IsVisit graph fuel visit_one
    → Inv graph s
    → All (IsNext graph s) nodes
    → IsGood graph fuel s nodes (visit_each visit_one nodes s)
unfolding visit_each
visit_each-IsGood graph fuel visit_one [] s good inv next = (inv, After-refl s, tt)
visit_each-IsGood graph fuel visit_one (node ∷ nodes) s good inv next =
    rest (visit_one node s) (good node s inv next.0)
      (λ s' inv' next'. visit_each-IsGood graph fuel visit_one nodes s' good inv' next')
  where
    join :
        (s' : Search) (o : Outcome)
        → After s s'
        → colour s' node ≡ 2
        → IsGood graph fuel s' nodes o
        → IsGood graph fuel s (node ∷ nodes) o
    join s' (found cycle) after black h = h
    join s' (finished u) after black h =
        (h.0, After-trans s s' u after h.1, (h.1.still_black node black, h.2))
    join s' out_of_fuel after black h = omega (arith, whites_fewer graph s s' after)

    rest :
        (o : Outcome)
        → IsGood graph fuel s (node ∷ []) o
        → ((s' : Search)
            → Inv graph s'
            → All (IsNext graph s') nodes
            → IsGood graph fuel s' nodes (visit_each visit_one nodes s'))
        → IsGood graph fuel s (node ∷ nodes) (and_then o (λ s'. visit_each visit_one nodes s'))
    rest (found cycle) h others = h
    rest out_of_fuel h others = h
    rest (finished s') h others = join s' (visit_each visit_one nodes s') h.1 h.2.0 (
        others s' h.0 (
          All-map
            (λ n (next : IsNext graph s n).
              (subst (λ stack. IsWalk graph (stack ++ n ∷ [])) (sym h.1.same_stack) next.0, next.1))
            nodes next.1))
