-- ===== src/Alias.antt =====
-- internal/catalog/alias.go: the aliases of a catalog, once their terminals are known.
mod Examples
pub mod Resolve
pub mod Build
use works_on_my_whiteboard.Prelude.{
  ℕ, Bool, true, false, not, ◌&&◌, ◌||◌, Option, none, some, List, [], ◌∷◌, map, ◌≡◌, ◌↔◌,
  if◌then◌else◌, String, GoError, message, Result, ok, err, refl, arith, All, Bool-cases, inl, inr,
  check, ◌else_check◌, check-none, else_check-none,
}
use works_on_my_whiteboard.Prelude.Dict.{Key, str_eq, str_eq_iff, lookup}
use works_on_my_whiteboard.Prelude.Sort.{stable_sort, insert_sorted, All-of_stable_sort}
use works_on_my_whiteboard.Prelude.Lex.{lex_by}

-- EntityKind values are texts.
abbrev pub alias_entity_kinds : List String
alias_entity_kinds = "case" ∷ "principle" ∷ "lab" ∷ "source" ∷ []

pub record AliasKey : Type 0 where
  pub kind : String
  pub from : String

abbrev pub key_eq : AliasKey → AliasKey → Bool
key_eq a b = str_eq a.kind b.kind && str_eq a.from b.from

pub key_eq_iff : (a b : AliasKey) → (key_eq a b ≡ true) ↔ (a ≡ b)
key_eq_iff a b = ground (arith, str_eq_iff a.kind b.kind, str_eq_iff a.from b.from)

instance abbrev pub alias_key : Key AliasKey
alias_key = record { same = key_eq; same_iff = key_eq_iff }

pub record Alias : Type 0 where
  pub kind : String
  pub from : String
  pub to : String

-- The map of an AliasSet, from the keys of the aliases to their terminals.
abbrev pub Terminals : Type 0
Terminals = List (AliasKey × String)

pub record AliasSet : Type 0 where
  pub terminals : Terminals
  pub entries : List Alias

-- `canonical[kind][id]` is there.
abbrev pub Canonical : Type 0
Canonical = String → String → Bool

abbrev pub is_kind_in : List String → String → Bool
is_kind_in [] kind = false
is_kind_in (allowed ∷ kinds) kind = str_eq kind allowed || is_kind_in kinds kind

abbrev pub is_alias_entity_kind : String → Bool
is_alias_entity_kind kind = is_kind_in alias_entity_kinds kind

unfoldable pub sort_alias_keys : List AliasKey → List AliasKey
sort_alias_keys keys = stable_sort (lex_by ((λ k. k.kind) ∷ (λ k. k.from) ∷ [])) keys

-- terminals[key], or the empty text.
abbrev pub terminal_or_empty : Option String → String
terminal_or_empty none = ""
terminal_or_empty (some terminal) = terminal

abbrev pub exists_as_other : Canonical → List String → String → String → Bool
exists_as_other canonical [] kind terminal = false
exists_as_other canonical (other ∷ kinds) kind terminal =
    not (str_eq other kind) && canonical other terminal
    || exists_as_other canonical kinds kind terminal

-- One round of ValidateCanonical.
unfoldable pub check_key : Canonical → Terminals → AliasKey → Option GoError
check_key canonical terminals key =
    let terminal = terminal_or_empty (lookup key terminals) in
    let missing =
      if exists_as_other canonical alias_entity_kinds key.kind terminal
      then message "alias terminal exists as another kind"
      else message "alias has missing terminal" in
    check (canonical key.kind key.from) (message "alias shadows canonical ID")
    else_check check (not (canonical key.kind terminal)) missing

unfoldable pub check_keys : Canonical → Terminals → List AliasKey → Option GoError
check_keys canonical terminals [] = none
check_keys canonical terminals (key ∷ keys) =
    check_key canonical terminals key else_check check_keys canonical terminals keys

unfoldable pub validate_canonical : Terminals → Canonical → Option GoError
validate_canonical terminals canonical =
    check_keys canonical terminals (sort_alias_keys (map (λ entry. entry.0) terminals))

-- The terminal of an alias, or the ID itself.
abbrev pub terminal_or : String → Option String → String
terminal_or id none = id
terminal_or id (some terminal) = terminal

unfoldable pub resolve : Terminals → String → String → Result String
resolve terminals kind id =
    if not (is_alias_entity_kind kind)
    then err (message "unsupported alias kind")
    else ok (terminal_or id (lookup (record { kind = kind; from = id }) terminals))

-- An alias that is no canonical ID, while its terminal is one of its own kind.
abbrev pub IsResolved : Canonical → Terminals → AliasKey → Type 0
IsResolved canonical terminals key =
    (canonical key.kind key.from ≡ false)
    × (canonical key.kind (terminal_or_empty (lookup key terminals)) ≡ true)

check_keys-IsResolved :
    (canonical : Canonical) (terminals : Terminals) (keys : List AliasKey)
    → check_keys canonical terminals keys ≡ none
    → All (IsResolved canonical terminals) keys
unfolding check_keys check_key
check_keys-IsResolved canonical terminals [] h = tt
check_keys-IsResolved canonical terminals (key ∷ keys) h =
    let (this, others) = else_check-none _ _ h in
    let (shadows, missing) = else_check-none _ _ this in
    let found : not (canonical key.kind (terminal_or_empty (lookup key terminals))) ≡ false =
      check-none _ _ missing in
    ((check-none _ _ shadows, ground arith), check_keys-IsResolved canonical terminals keys others)

-- Aliases that ValidateCanonical accepts, whatever the order of the map, are no canonical IDs, and
-- their terminals are canonical IDs of their own kinds.
pub validate_canonical-IsResolved :
    (terminals : Terminals) (canonical : Canonical)
    → validate_canonical terminals canonical ≡ none
    → All (IsResolved canonical terminals) (map (λ entry. entry.0) terminals)
unfolding validate_canonical sort_alias_keys
validate_canonical-IsResolved terminals canonical h =
    All-of_stable_sort _ (IsResolved canonical terminals) (map (λ entry. entry.0) terminals)
      (check_keys-IsResolved canonical terminals _ h)
