-- ===== src/Validator/Cycle/Verdict.antt =====
-- internal/validator/graph.go: the verdict of firstDependencyCycle.
use works_on_my_whiteboard.Prelude.{
  suc, ◌≤◌, ◌≡◌, true, none, some, Option, List, [], ◌∷◌, ◌++◌, map, String, refl, sym, ◌∙◌, subst,
  arith, length, keep_if, Bool-cases, inl, inr,
}
use works_on_my_whiteboard.Prelude.Dict.{string_key, str_eq, lookup}
use works_on_my_whiteboard.Validator.{contains, sorted}
use works_on_my_whiteboard.Validator.Sets.{contains-sorted}
use works_on_my_whiteboard.Validator.Cycle.{
  DependencyGraph, Outcome, found, finished, out_of_fuel, visit, visit_each, colour, targets, names,
  fresh_search, cycle_of, first_dependency_cycle,
}
use works_on_my_whiteboard.Validator.Cycle.Walks.{
  IsEdge, IsWalk, IsCycle, Ends, ends, IsWalk-snoc, contains-All,
}
use works_on_my_whiteboard.Validator.Cycle.Visit.{Inv, IsGood, is_white, whites, visit_each-IsGood}
use works_on_my_whiteboard.Validator.Cycle.Correct.{
  visit-IsVisit, contains-names_of_key, All-of_members,
}

-- A node from which every walk ends lies on no cycle.
Ends-acyclic :
    (graph : DependencyGraph) (node : String) (inner : List String)
    → Ends graph node
    → IsWalk graph (node ∷ inner ++ node ∷ [])
    → ⊥
Ends-acyclic graph node [] (ends next) walk = Ends-acyclic graph node [] (next node walk.0) walk
Ends-acyclic graph node (m ∷ rest) (ends next) walk =
    Ends-acyclic graph m (rest ++ node ∷ []) (next m walk.0)
      (IsWalk-snoc graph (m ∷ rest) node m walk.1 walk.0)

-- A list of nodes that is a cycle, or none and every walk of the graph ends, so that none is a cycle.
abbrev pub IsVerdict : DependencyGraph → Option (List String) → Type 0
IsVerdict graph none = ⊥
IsVerdict graph (some []) =
    ((node : String) → Ends graph node) × ((cycle : List String) → ¬ IsCycle graph cycle)
IsVerdict graph (some (node ∷ nodes)) = IsCycle graph (node ∷ nodes)

-- A node that is no key has no targets.
targets_of_key :
    (graph : DependencyGraph) (node t : String)
    → IsEdge graph node t
    → contains node (map (λ entry. entry.0) graph) ≡ true
unfolding targets lookup
targets_of_key [] node t edge = cc
targets_of_key (entry ∷ graph) node t edge = elim (Bool-cases (str_eq entry.0 node)) [
  | inl same ↦ rw same refl
  | inr other ↦ rw other (targets_of_key graph node t (ground arith))
]

Ends-of_keys :
    (graph : DependencyGraph)
    → ((node : String) → contains node (map (λ entry. entry.0) graph) ≡ true → Ends graph node)
    → (node : String) → Ends graph node
Ends-of_keys graph keys node = elim (Bool-cases (contains node (map (λ entry. entry.0) graph))) [
  | inl there ↦ keys node there
  | inr absent ↦ ends (λ t edge. cc (targets_of_key graph node t edge, absent))
]

Inv-fresh : (graph : DependencyGraph) → Inv graph fresh_search
unfolding colour lookup
Inv-fresh graph = record {
  walk = tt;
  indexed = λ n grey. absurd (omega arith);
  black = λ n b. absurd (omega arith);
}

whites_fresh : (graph : DependencyGraph) → whites graph fresh_search ≤ length (names graph)
whites_fresh graph = at_most (names graph)
  where
    at_most : (xs : List String) → length (keep_if (λ n. is_white fresh_search n) xs) ≤ length xs
    at_most [] = omega arith
    at_most (x ∷ xs) = ground (arith, at_most xs)

-- The search for a dependency cycle always ends; the list it returns is empty if every walk in the
-- graph ends, and otherwise a walk along the graph's edges from a node back to it.
pub first_dependency_cycle-IsVerdict :
    (graph : DependencyGraph) → IsVerdict graph (first_dependency_cycle graph)
unfolding first_dependency_cycle
first_dependency_cycle-IsVerdict graph =
    verdict
      (visit_each (λ node s. visit (suc (length (names graph))) graph node s)
        (sorted (map (λ entry. entry.0) graph)) fresh_search)
      (visit_each-IsGood graph (suc (length (names graph)))
        (λ node s. visit (suc (length (names graph))) graph node s)
        (sorted (map (λ entry. entry.0) graph)) fresh_search
        (visit-IsVisit graph (suc (length (names graph)))) (Inv-fresh graph)
        (All-of_members (sorted (map (λ entry. entry.0) graph)) (λ node there. (
          tt,
          contains-names_of_key graph node
              (sym (contains-sorted node (map (λ entry. entry.0) graph)) ∙ there),
        ))))
  where
    no_cycle : ((node : String) → Ends graph node) → (cycle : List String) → ¬ IsCycle graph cycle
    no_cycle all cycle (node, inner, same, walk) =
        Ends-acyclic graph node inner (all node) (subst (λ c. IsWalk graph c) same walk)

    listed : (cycle : List String) → IsCycle graph cycle → IsVerdict graph (some cycle)
    listed [] h = cc (h.2)
    listed (node ∷ nodes) h = h

    verdict :
        (o : Outcome)
        → IsGood graph
            (suc (length (names graph)))
            fresh_search
            (sorted (map (λ entry. entry.0) graph))
            o
        → IsVerdict graph (cycle_of o)
    verdict (found cycle) h = listed cycle h
    verdict out_of_fuel h = omega (arith, whites_fresh graph)
    verdict (finished s) h =
        let all = Ends-of_keys graph (λ node there. h.0.black node (
          contains-All (λ n. colour s n ≡ 2) (sorted (map (λ entry. entry.0) graph)) node h.2
            (contains-sorted node (map (λ entry. entry.0) graph) ∙ there))) in
        (all, no_cycle all)
