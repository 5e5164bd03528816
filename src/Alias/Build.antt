-- ===== src/Alias/Build.antt =====
-- internal/catalog/alias.go: NewAliasSet, which checks aliases and finds their terminals.
pub mod Chains
pub mod Correct
pub mod Loops
pub mod NewSet
use works_on_my_whiteboard.Prelude.{
  ℕ, zero, suc, ◌==◌, Bool, true, false, not, Option, none, some, List, [], ◌∷◌, map, if◌then◌else◌,
  String, GoError, message, Result, ok, err, check, ◌else_check◌, length,
}
use works_on_my_whiteboard.Prelude.Dict.{str_eq, lookup, insert}
use works_on_my_whiteboard.Prelude.Sort.{stable_sort}
use works_on_my_whiteboard.Prelude.Lex.{lex_by}
use works_on_my_whiteboard.Alias.{
  AliasKey, alias_key, Alias, AliasSet, Terminals, is_alias_entity_kind, sort_alias_keys,
  terminal_or_empty,
}

-- `direct`, from the key of an alias to what it stands for.
abbrev pub Direct : Type 0
Direct = List (AliasKey × String)

abbrev pub key_of : Alias → AliasKey
key_of alias = record { kind = alias.kind; from = alias.from }

abbrev pub is_there : Option String → Bool
is_there none = false
is_there (some to) = true

-- The checks of one alias.
unfoldable pub check_alias : Direct → Alias → Option GoError
check_alias direct alias =
    check (not (is_alias_entity_kind alias.kind)) (message "unsupported alias kind")
    else_check check (str_eq alias.from "") (message "alias has empty alias from")
    else_check check (str_eq alias.to "") (message "alias has empty alias to")
    else_check check (str_eq alias.from alias.to) (message "self-alias")
    else_check check (is_there (lookup (key_of alias) direct)) (message "duplicate alias")

abbrev pub or_fail : {A : Type 0} → Option GoError → Result A → Result A
or_fail none result = result
or_fail (some e) result = err e

-- The loop over the aliases.
unfoldable pub direct_of : Direct → List Alias → Result Direct
direct_of direct [] = ok direct
direct_of direct (alias ∷ aliases) =
    or_fail (check_alias direct alias) (direct_of (insert (key_of alias) alias.to direct) aliases)

unfoldable pub sort_aliases : List Alias → List Alias
sort_aliases aliases =
    stable_sort (lex_by ((λ a. a.kind) ∷ (λ a. a.from) ∷ (λ a. a.to) ∷ [])) aliases

-- The variables that the closure cacheTerminal shares.
pub record AliasSearch : Type 0 where
  pub state : List (AliasKey × ℕ)
  pub terminals : Terminals

abbrev pub number_or_zero : Option ℕ → ℕ
number_or_zero none = 0
number_or_zero (some n) = n

-- state[key]
unfoldable pub state_of : AliasSearch → AliasKey → ℕ
state_of st key = number_or_zero (lookup key st.state)

-- A terminal and the variables, an error, or `none` out of fuel.
abbrev pub Cached : Type 0
Cached = Option (Result (String × AliasSearch))

abbrev pub mark : AliasKey → ℕ → AliasSearch → AliasSearch
mark key n st = record st { state = insert key n st.state }

abbrev pub settled : AliasKey → String → AliasSearch → AliasSearch
settled key terminal st = record {
  state = insert key 2 st.state;
  terminals = insert key terminal st.terminals;
}

-- The end of a call that found the terminal.
abbrev pub settle : AliasKey → Cached → Cached
settle key none = none
settle key (some (err e)) = some (err e)
settle key (some (ok (terminal, st))) = some (ok (terminal, settled key terminal st))

-- Each nested call has one key less in state 0, so one more than the keys is enough fuel.
unfoldable pub cache_terminal : ℕ → Direct → AliasKey → AliasSearch → Cached
cache_terminal zero direct key st = none
cache_terminal (suc fuel) direct key st =
    let terminal = terminal_or_empty (lookup key direct) in
    let next : AliasKey = record { kind = key.kind; from = terminal } in
    let deeper = cache_terminal fuel direct next (mark key 1 st) in
    if state_of st key == 1
    then some (err (message "alias cycle"))
    else if state_of st key == 2
    then some (ok (terminal_or_empty (lookup key st.terminals), st))
    else settle key
        (if is_there (lookup next direct) then deeper else some (ok (terminal, mark key 1 st)))

abbrev pub then_each :
    Cached → (AliasSearch → Option (Result AliasSearch)) → Option (Result AliasSearch)
then_each none rest = none
then_each (some (err e)) rest = some (err e)
then_each (some (ok (terminal, st))) rest = rest st

unfoldable pub cache_each : ℕ → Direct → List AliasKey → AliasSearch → Option (Result AliasSearch)
cache_each fuel direct [] st = some (ok st)
cache_each fuel direct (key ∷ keys) st =
    then_each (cache_terminal fuel direct key st) (λ st'. cache_each fuel direct keys st')

abbrev pub set_of : List Alias → Option (Result AliasSearch) → Option (Result AliasSet)
set_of aliases none = none
set_of aliases (some (err e)) = some (err e)
set_of aliases (some (ok st)) =
    some (ok (record { terminals = st.terminals; entries = sort_aliases aliases }))

abbrev pub with_direct : List Alias → Result Direct → Option (Result AliasSet)
with_direct aliases (err e) = some (err e)
with_direct aliases (ok direct) = set_of aliases (
    cache_each (suc (length direct)) direct (sort_alias_keys (map key_of aliases))
      (record { state = []; terminals = [] }))

unfoldable pub new_alias_set : List Alias → Option (Result AliasSet)
new_alias_set aliases = with_direct aliases (direct_of [] aliases)
