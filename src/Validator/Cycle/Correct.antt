-- ===== src/Validator/Cycle/Correct.antt =====
-- internal/validator/graph.go: firstDependencyCycle ends, and finds a cycle if and only if there is one.
use works_on_my_whiteboard.Prelude.{
  ℕ, zero, suc, ◌≡◌, true, false, ◌||◌, some, List, [], ◌∷◌, ◌++◌, map, ◌==◌, String, refl, sym, ap,
  ◌∙◌, subst, arith, All, length, get_elem?, Bool-cases, inl, inr,
}
use works_on_my_whiteboard.Prelude.Dict.{string_key, str_eq, str_eq_iff, lookup, lookup-insert}
use works_on_my_whiteboard.Validator.{contains}
use works_on_my_whiteboard.Validator.Cycle.{
  DependencyGraph, Search, Outcome, found, finished, out_of_fuel, and_then, visit, visit_each,
  colour, push, pop, targets, names, closed_walk, or_zero, drop, without_last,
}
use works_on_my_whiteboard.Validator.Cycle.Walks.{
  IsWalk, IsCycle, Ends, ends, IsWalk-drop, drop-get_elem?, IsWalk-snoc, without_last-snoc,
  get_elem?-snoc, get_elem?-append, get_elem?-last, lookup-remove, contains-All,
}
use works_on_my_whiteboard.Validator.Cycle.Visit.{
  Inv, After, IsGood, IsNext, IsVisit, After-refl, colour-push, colour-pop, is_white, whites-push,
  visit_each-IsGood,
}

module _ (graph : DependencyGraph) (node : String) where
  Inv-push : (s : Search) → Inv graph s → IsNext graph s node → Inv graph (push node s)
  unfolding push
  Inv-push s inv next = record {
    walk = next.0;
    indexed = λ n grey. elim (Bool-cases (str_eq node n)) [
      | inl same ↦ (
        length s.stack,
        ground (arith, lookup-insert node n (length s.stack) s.stack_index),
        subst (λ m. get_elem? (s.stack ++ node ∷ []) (length s.stack) ≡ some m)
            ((str_eq_iff node n).0 same) (get_elem?-last s.stack node),
      )
      | inr other ↦
          let (i, at_index, on_stack) = inv.indexed n (ground (arith, colour-push node n s)) in
          (
            i,
            ground (arith, lookup-insert node n (length s.stack) s.stack_index),
            get_elem?-append s.stack (node ∷ []) n i on_stack,
          )
    ];
    black = λ n b. inv.black n (ground (arith, colour-push node n s));
  }

  -- All targets black, the node turns black.
  Inv-pop :
      (s s' : Search)
      → Inv graph s
      → Inv graph s'
      → After (push node s) s'
      → All (λ n. colour s' n ≡ 2) (targets graph node)
      → Inv graph (pop node s')
  unfolding pop push
  Inv-pop s s' inv inv' after black =
      let stack : without_last s'.stack ≡ s.stack =
        ap (λ xs. without_last xs) after.same_stack ∙ without_last-snoc s.stack node in
      record {
        walk = subst (λ xs. IsWalk graph xs) (sym stack) inv.walk;
        indexed = λ n grey.
            let other : str_eq node n ≡ false = ground (arith, colour-pop node n s') in
            let (i, at_index, on_stack) = inv'.indexed n (ground (arith, colour-pop node n s')) in
            (
              i,
              lookup-remove node n s'.stack_index other ∙ at_index,
              subst (λ xs. get_elem? xs i ≡ some n) (sym stack)
                  (get_elem?-snoc s.stack n node i
                    (subst (λ xs. get_elem? xs i ≡ some n) after.same_stack on_stack) other),
            );
        black = λ n b. elim (Bool-cases (str_eq node n)) [
          | inl same ↦
              subst (λ m. Ends graph m) ((str_eq_iff node n).0 same)
                (ends (λ t edge.
                  inv'.black t
                    (contains-All (λ m. colour s' m ≡ 2) (targets graph node) t black edge)))
          | inr other ↦ inv'.black n (ground (arith, colour-pop node n s'))
        ];
      }

  After-pop :
      (s s' : Search) → is_white s node ≡ true → After (push node s) s' → After s (pop node s')
  unfolding pop push
  After-pop s s' white after = record {
    same_stack = ap (λ xs. without_last xs) after.same_stack ∙ without_last-snoc s.stack node;
    grey = λ n g. ground (arith, colour-pop node n s', after.grey n, colour-push node n s);
    still_grey = λ n g.
        ground (
          arith,
          colour-pop node n s',
          after.still_grey n,
          colour-push node n s,
          str_eq_iff node n,
        );
    still_black = λ n b.
        ground (
          arith,
          colour-pop node n s',
          after.still_black n,
          colour-push node n s,
          str_eq_iff node n,
        );
  }

  IsCycle-closed_walk :
      (s : Search)
      → Inv graph s
      → IsNext graph s node
      → colour s node ≡ 1
      → IsCycle graph (closed_walk s node)
  unfolding closed_walk
  IsCycle-closed_walk s inv next grey =
      let (i, at_index, on_stack) = inv.indexed node grey in
      let (rest, from, low) = drop-get_elem? s.stack i node on_stack in
      let index : or_zero (lookup node s.stack_index) ≡ i = ap (λ o. or_zero o) at_index in
      (
        node,
        rest,
        ap (λ j. drop s.stack j ++ node ∷ []) index ∙ ap (λ xs. xs ++ node ∷ []) from,
        subst (λ j. IsWalk graph (drop s.stack j ++ node ∷ [])) (sym index)
            (IsWalk-drop graph s.stack (node ∷ []) i (omega arith) next.0),
      )

contains-append :
    (v : String) (xs ys : List String) → contains v (xs ++ ys) ≡ (contains v xs || contains v ys)
contains-append v [] ys = refl
contains-append v (x ∷ xs) ys = ground (arith, contains-append v xs ys)

-- The targets of a node are names, and so are the nodes with targets.
contains-names :
    (graph : DependencyGraph) (node t : String)
    → contains t (targets graph node) ≡ true
    → contains t (names graph) ≡ true
unfolding targets lookup
contains-names [] node t there = cc
contains-names (entry ∷ graph) node t there = elim (Bool-cases (str_eq entry.0 node)) [
  | inl same ↦
      let here : contains t entry.1 ≡ true = ground arith in
      ground (arith, contains-append t (entry.0 ∷ entry.1) (names graph))
  | inr other ↦
      let later : contains t (targets graph node) ≡ true = ground arith in
      ground (
        arith,
        contains-append t (entry.0 ∷ entry.1) (names graph),
        contains-names graph node t later,
      )
]

pub contains-names_of_key :
    (graph : DependencyGraph) (node : String)
    → contains node (map (λ entry. entry.0) graph) ≡ true
    → contains node (names graph) ≡ true
contains-names_of_key [] node there = cc
contains-names_of_key (entry ∷ graph) node there = ground (
  arith,
  contains-append node (entry.0 ∷ entry.1) (names graph),
  contains-names_of_key graph node,
)

pub All-of_members :
    {P : String → Type 0} (xs : List String)
    → ((x : String) → contains x xs ≡ true → P x)
    → All P xs
All-of_members [] h = tt
All-of_members (x ∷ xs) h =
    (h x (ground (arith, str_eq_iff x x)), All-of_members xs (λ y there. h y (ground arith)))

-- Every visit keeps the invariant, finds a real cycle, or lacks fuel for the white nodes.
pub visit-IsVisit :
    (graph : DependencyGraph) (fuel : ℕ) → IsVisit graph fuel (λ node s. visit fuel graph node s)
unfolding visit push
visit-IsVisit graph zero node s inv next = omega arith
visit-IsVisit graph (suc fuel) node s inv next = elim (Bool-cases (colour s node == 1)) [
  | inl grey ↦ rw grey (IsCycle-closed_walk graph node s inv next (ground arith))
  | inr not_grey ↦ elim (Bool-cases (colour s node == 2)) [
    | inl black ↦ rw (not_grey, black) (inv, After-refl s, (ground arith, tt))
    | inr not_black ↦
        rw (not_grey, not_black)
          (after_targets
            (visit_each (λ t s'. visit fuel graph t s') (targets graph node) (push node s))
            (visit_each-IsGood graph fuel (λ t s'. visit fuel graph t s') (targets graph node)
              (push node s) (visit-IsVisit graph fuel) (Inv-push graph node s inv next)
              (nexts s next))
            (ground arith))
  ]
]
  where
    nexts :
        (s : Search) → IsNext graph s node → All (IsNext graph (push node s)) (targets graph node)
    nexts s next =
        All-of_members (targets graph node) (λ t edge.
          (IsWalk-snoc graph s.stack node t next.0 edge, contains-names graph node t edge))

    after_targets :
        (o : Outcome)
        → IsGood graph fuel (push node s) (targets graph node) o
        → is_white s node ≡ true
        → IsGood graph (suc fuel) s (node ∷ []) (and_then o (λ s'. finished (pop node s')))
    after_targets (found cycle) h white = h
    after_targets out_of_fuel h white = omega (arith, whites-push graph s node next.1 white)
    after_targets (finished s') h white = (
      Inv-pop graph node s s' inv h.0 h.1 h.2,
      After-pop graph node s s' white h.1,
      (ground (arith, colour-pop node node s', str_eq_iff node node), tt),
    )
