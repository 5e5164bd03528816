-- ===== src/Alias/Build/NewSet.antt =====
-- internal/catalog/alias.go: the set that NewAliasSet returns.
use mathlib.Core.List.{Perm}
use works_on_my_whiteboard.Prelude.{
  suc, ◌≡◌, true, none, some, Option, List, [], ◌∷◌, map, String, refl, ap, arith, All, All-map,
  length, inl, inr, ◌⊎◌, Result, ok, err,
}
use works_on_my_whiteboard.Prelude.Dict.{lookup}
use works_on_my_whiteboard.Prelude.Sort.{stable_sort-perm, All-of_stable_sort, All-stable_sort}
use works_on_my_whiteboard.Alias.{Alias, AliasSet, AliasKey, alias_key, sort_alias_keys}
use works_on_my_whiteboard.Alias.Build.{
  Direct, AliasSearch, state_of, is_there, key_of, direct_of, set_of, with_direct, new_alias_set,
  sort_aliases,
}
use works_on_my_whiteboard.Alias.Build.Chains.{
  after, Leads, at_end, onward, Reaches, fresh_keys_at_most,
}
use works_on_my_whiteboard.Alias.Build.Loops.{
  IsEach, IsAlias, IsDirectOf, cache_each-IsEach, direct_of-IsDirectOf,
}

Leads_end :
    (direct : Direct) (key : AliasKey) (end : String)
    → Leads direct key end
    → lookup (after key end) direct ≡ none
Leads_end direct key end (at_end found last) = last
Leads_end direct key end (onward {to = to} found rest) = Leads_end direct (after key to) end rest

-- An alias whose terminal is the end of the chain from it, which is no alias of its kind.
abbrev pub IsTerminated : Direct → AliasSet → Alias → Type 0
IsTerminated direct set alias =
    (end : String) × (lookup (key_of alias) set.terminals ≡ some end)
    × Leads direct (key_of alias) end
    × (lookup (record { kind = alias.kind; from = end }) direct ≡ none)

-- `direct` is what each alias says. The set has the aliases and their terminals; an error is that of
-- a bad alias, or a chain comes back to where it starts.
abbrev pub IsNewSet : List Alias → Option (Result AliasSet) → Type 0
IsNewSet aliases none = ⊥
IsNewSet aliases (some (err e)) =
    (direct_of [] aliases ≡ err e)
    ⊎ ((direct : Direct) × (direct_of [] aliases ≡ ok direct)
        × (start : AliasKey) × Reaches direct start start)
IsNewSet aliases (some (ok set)) =
    (direct : Direct) × (direct_of [] aliases ≡ ok direct)
    × Perm set.entries aliases
    × All (λ alias. IsAlias alias × (lookup (key_of alias) direct ≡ some alias.to)) aliases
    × All (IsTerminated direct set) aliases

All-of_keys :
    (P : AliasKey → Type 0) (aliases : List Alias)
    → All P (map key_of aliases)
    → All (λ alias. P (key_of alias)) aliases
All-of_keys P [] h = tt
All-of_keys P (alias ∷ aliases) h = (h.0, All-of_keys P aliases h.1)

All-keys :
    (direct : Direct) (aliases : List Alias)
    → All (λ alias. IsAlias alias × (lookup (key_of alias) direct ≡ some alias.to)) aliases
    → All (λ key. is_there (lookup key direct) ≡ true) (map key_of aliases)
All-keys direct [] h = tt
All-keys direct (alias ∷ aliases) h = (ap (λ f. is_there f) h.0.1, All-keys direct aliases h.1)

set_of-IsNewSet :
    (aliases : List Alias) (direct : Direct) (st : AliasSearch)
    (found : Option (Result AliasSearch))
    → direct_of [] aliases ≡ ok direct
    → IsDirectOf [] direct aliases
    → IsEach direct (sort_alias_keys (map key_of aliases)) st found
    → IsNewSet aliases (set_of aliases found)
unfolding sort_alias_keys sort_aliases
set_of-IsNewSet aliases direct st none built sound each = each
set_of-IsNewSet aliases direct st (some (err e)) built sound each =
    inr (direct, built, each.0, each.1)
set_of-IsNewSet aliases direct st (some (ok st')) built sound each = (
  direct,
  built,
  stable_sort-perm _ aliases,
  sound.0,
  All-map
      (λ alias done.
        let (end, found, leads) = each.0 (key_of alias) done in
        (end, found, leads, Leads_end direct (key_of alias) end leads))
      aliases
      (All-of_keys (λ key. state_of st' key ≡ 2) aliases
        (All-of_stable_sort _ (λ key. state_of st' key ≡ 2) (map key_of aliases) each.1)),
)

-- NewAliasSet always ends. If it returns a set, then the entries are the aliases in another order;
-- each alias is of a known kind and between two texts that are not empty and differ; and its terminal
-- is where following the aliases leads, and no alias of its kind. If it fails, then an alias fails its
-- checks, or following the aliases from some key comes back to that key.
pub new_alias_set-IsNewSet : (aliases : List Alias) → IsNewSet aliases (new_alias_set aliases)
unfolding new_alias_set state_of lookup sort_alias_keys
new_alias_set-IsNewSet aliases = split (direct_of [] aliases) refl
  where
    split :
        (result : Result Direct)
        → direct_of [] aliases ≡ result
        → IsNewSet aliases (with_direct aliases result)
    split (err e) failed = inl failed
    split (ok direct) built =
        let sound = direct_of-IsDirectOf [] direct aliases built in
        set_of-IsNewSet aliases direct (record { state = []; terminals = [] }) _ built sound
          (cache_each-IsEach (suc (length direct)) direct (sort_alias_keys (map key_of aliases))
            (record { state = []; terminals = [] })
            (All-stable_sort _ (λ key. is_there (lookup key direct) ≡ true) (map key_of aliases)
              (All-keys direct aliases sound.0))
            (λ key done. absurd (omega (arith, done))) (λ key grey. omega (arith, grey))
            (omega (arith, fresh_keys_at_most direct (record { state = []; terminals = [] }))))
