-- ===== src/Validator/Cycle.antt =====
-- internal/validator/graph.go: the search for a cycle of required dependencies.
pub mod Walks
pub mod Visit
pub mod Correct
pub mod Verdict
use works_on_my_whiteboard.Prelude.{
  ℕ, zero, suc, ◌-◌, Bool, Option, none, some, List, [], ◌∷◌, ◌++◌, map, ◌==◌, if◌then◌else◌,
  String, concat_map, length,
}
use works_on_my_whiteboard.Prelude.Dict.{string_key, str_eq, lookup, insert}
use works_on_my_whiteboard.Validator.{sorted}

-- dependencyGraph, from a node to its targets.
abbrev pub DependencyGraph : Type 0
DependencyGraph = List (String × List String)

abbrev pub targets_or_nil : Option (List String) → List String
targets_or_nil none = []
targets_or_nil (some targets) = targets

-- graph[node]
unfoldable pub targets : DependencyGraph → String → List String
targets graph node = targets_or_nil (lookup node graph)

-- The variables that the closure `visit` shares.
pub record Search : Type 0 where
  pub state : List (String × ℕ)
  pub stack : List String
  pub stack_index : List (String × ℕ)

-- A map's number at a key, or 0.
abbrev pub or_zero : Option ℕ → ℕ
or_zero none = 0
or_zero (some n) = n

unfoldable pub colour : Search → String → ℕ
colour s node = or_zero (lookup node s.state)

-- delete(dict, key)
unfoldable pub remove : {V : Type 0} → String → List (String × V) → List (String × V)
remove key [] = []
remove key (entry ∷ dict) =
    let rest = remove key dict in if str_eq entry.0 key then rest else entry ∷ rest

abbrev pub drop : List String → ℕ → List String
drop xs zero = xs
drop [] (suc n) = []
drop (x ∷ xs) (suc n) = drop xs n

-- stack[:len(stack)-1]
abbrev pub without_last : List String → List String
without_last [] = []
without_last (x ∷ []) = []
without_last (x ∷ y ∷ xs) = x ∷ without_last (y ∷ xs)

unfoldable pub push : String → Search → Search
push node s = record {
  state = insert node 1 s.state;
  stack = s.stack ++ node ∷ [];
  stack_index = insert node (length s.stack) s.stack_index;
}

unfoldable pub pop : String → Search → Search
pop node s = record {
  state = insert node 2 s.state;
  stack = without_last s.stack;
  stack_index = remove node s.stack_index;
}

-- `visit` returns a cycle, or nil with the variables changed, or is out of fuel.
pub data Outcome : Type 0 where
  found : List String → Outcome
  finished : Search → Outcome
  out_of_fuel : Outcome

abbrev pub and_then : Outcome → (Search → Outcome) → Outcome
and_then (found cycle) rest = found cycle
and_then (finished s) rest = rest s
and_then out_of_fuel rest = out_of_fuel

-- The loop over nodes to visit.
unfoldable pub visit_each : (String → Search → Outcome) → List String → Search → Outcome
visit_each visit_one [] s = finished s
visit_each visit_one (node ∷ nodes) s =
    and_then (visit_one node s) (λ s'. visit_each visit_one nodes s')

-- The part of the stack from a grey node on, and the node again.
unfoldable pub closed_walk : Search → String → List String
closed_walk s node = drop s.stack (or_zero (lookup node s.stack_index)) ++ node ∷ []

unfoldable pub visit : ℕ → DependencyGraph → String → Search → Outcome
visit zero graph node s = out_of_fuel
visit (suc fuel) graph node s =
    let inner =
      and_then
        (visit_each (λ target s'. visit fuel graph target s') (targets graph node) (push node s))
        (λ s'. finished (pop node s')) in
    if colour s node == 1
    then found (closed_walk s node)
    else if colour s node == 2
    then finished s
    else inner

-- All that a search can meet. Each nested call has one white node less, so their number is enough.
abbrev pub names : DependencyGraph → List String
names graph = concat_map (λ entry. entry.0 ∷ entry.1) graph

abbrev pub fresh_search : Search
fresh_search = record { state = []; stack = []; stack_index = [] }

abbrev pub cycle_of : Outcome → Option (List String)
cycle_of (found cycle) = some cycle
cycle_of (finished s) = some []
cycle_of out_of_fuel = none

unfoldable pub first_dependency_cycle : DependencyGraph → Option (List String)
first_dependency_cycle graph = cycle_of (
    visit_each (λ node s. visit (suc (length (names graph))) graph node s)
      (sorted (map (λ entry. entry.0) graph)) fresh_search)
