-- ===== src/Alias/Examples.antt =====
-- A run of internal/catalog/alias.go at concrete inputs.
use works_on_my_whiteboard.Prelude.{
  List, some, err, message, ◌≡◌, none, ◌&&◌, ◌||◌, [], ◌∷◌, refl, map, ok, All,
}
use works_on_my_whiteboard.Prelude.Dict.{str_eq, lookup, insert}
use works_on_my_whiteboard.Prelude.Sort.{stable_sort, insert_sorted, text_lt}
use works_on_my_whiteboard.Prelude.Lex.{lex_by}
use works_on_my_whiteboard.Alias.{
  Alias, Terminals, Canonical, validate_canonical, check_keys, check_key, sort_alias_keys, resolve,
  IsResolved, validate_canonical-IsResolved,
}
use works_on_my_whiteboard.Alias.Build.{
  new_alias_set, direct_of, check_alias, sort_aliases, cache_each, cache_terminal, state_of,
}
use works_on_my_whiteboard.Alias.Build.NewSet.{IsNewSet, new_alias_set-IsNewSet}
use works_on_my_whiteboard.Alias.Resolve.{resolve_idempotent}

abbrev old_names : Terminals
old_names =
    (record { kind = "lab"; from = "bucket" }, "token-bucket")
    ∷ (record { kind = "case"; from = "limiter" }, "rate-limiter")
    ∷ []

abbrev canonical : Canonical
canonical kind id =
    str_eq kind "lab" && str_eq id "token-bucket" || str_eq kind "case" && str_eq id "rate-limiter"

old_names_pass : validate_canonical old_names canonical ≡ none
unfolding validate_canonical check_keys check_key sort_alias_keys stable_sort insert_sorted lex_by
    text_lt lookup
old_names_pass = refl

resolve_bucket : resolve old_names "lab" "bucket" ≡ ok "token-bucket"
unfolding resolve lookup
resolve_bucket = refl

validate_canonical-IsResolved_example :
    All (IsResolved canonical old_names) (map (λ entry. entry.0) old_names)
validate_canonical-IsResolved_example =
    validate_canonical-IsResolved old_names canonical old_names_pass

resolve_idempotent_example : resolve old_names "lab" "token-bucket" ≡ ok "token-bucket"
resolve_idempotent_example =
    resolve_idempotent old_names canonical "lab" "bucket" "token-bucket" old_names_pass
      resolve_bucket

abbrev renamed_twice : List Alias
renamed_twice =
    record { kind = "lab"; from = "bucket"; to = "old-bucket" }
    ∷ record { kind = "lab"; from = "old-bucket"; to = "token-bucket" }
    ∷ []

abbrev going_round : List Alias
going_round =
    record { kind = "lab"; from = "a"; to = "b" }
    ∷ record { kind = "lab"; from = "b"; to = "a" }
    ∷ []

renamed_twice_found :
    new_alias_set renamed_twice
    ≡ some (
        ok (record {
          terminals =
              (record { kind = "lab"; from = "old-bucket" }, "token-bucket")
              ∷ (record { kind = "lab"; from = "bucket" }, "token-bucket")
              ∷ [];
          entries = renamed_twice;
        }))
unfolding new_alias_set direct_of check_alias sort_aliases sort_alias_keys cache_each cache_terminal
    state_of stable_sort insert_sorted lex_by text_lt lookup insert
renamed_twice_found = refl

going_round_refused : new_alias_set going_round ≡ some (err (message "alias cycle"))
unfolding new_alias_set direct_of check_alias sort_aliases sort_alias_keys cache_each cache_terminal
    state_of stable_sort insert_sorted lex_by text_lt lookup insert
going_round_refused = refl

new_alias_set-IsNewSet_example : IsNewSet renamed_twice (new_alias_set renamed_twice)
new_alias_set-IsNewSet_example = new_alias_set-IsNewSet renamed_twice
