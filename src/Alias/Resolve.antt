-- ===== src/Alias/Resolve.antt =====
-- internal/catalog/alias.go: resolving an ID through the aliases that ValidateCanonical accepts.
use works_on_my_whiteboard.Prelude.{
  String, Bool, true, false, ◌≡◌, Option, none, some, [], ◌∷◌, map, ok, refl, subst, All,
  Bool-cases, Option-cases, inl, inr, if◌then◌else◌,
}
use works_on_my_whiteboard.Prelude.Dict.{lookup}
use works_on_my_whiteboard.Alias.{
  AliasKey, Terminals, Canonical, alias_key, key_eq, key_eq_iff, resolve, validate_canonical,
  is_alias_entity_kind, terminal_or, terminal_or_empty, IsResolved, validate_canonical-IsResolved,
}

lookup-All :
    (P : AliasKey → Type 0) (key : AliasKey) (terminal : String) (terminals : Terminals)
    → All P (map (λ entry. entry.0) terminals)
    → lookup key terminals ≡ some terminal
    → P key
unfolding lookup
lookup-All P key terminal [] all found = cc
lookup-All P key terminal (entry ∷ terminals) all found = elim (Bool-cases (key_eq entry.0 key)) [
  | inl same ↦ subst P ((key_eq_iff entry.0 key).0 same) all.0
  | inr other ↦ lookup-All P key terminal terminals all.1 (rest (key_eq entry.0 key) other found)
]
  where
    rest :
        (same : Bool)
        → same ≡ false
        → (if same then some entry.1 else lookup key terminals) ≡ some terminal
        → lookup key terminals ≡ some terminal
    rest true h found = cc
    rest false h found = found

resolve_known :
    (terminals : Terminals) (kind id : String) (found : Option String)
    → is_alias_entity_kind kind ≡ true
    → lookup (record { kind = kind; from = id }) terminals ≡ found
    → resolve terminals kind id ≡ ok (terminal_or id found)
unfolding resolve
resolve_known terminals kind id found known h = rw (known, h) refl

-- Through aliases that ValidateCanonical accepts, resolving what an ID of a kind of alias resolves to
-- changes nothing.
pub resolve_idempotent :
    (terminals : Terminals) (canonical : Canonical) (kind id terminal : String)
    → validate_canonical terminals canonical ≡ none
    → resolve terminals kind id ≡ ok terminal
    → resolve terminals kind terminal ≡ ok terminal
unfolding resolve
resolve_idempotent terminals canonical kind id terminal valid resolved =
    let all = validate_canonical-IsResolved terminals canonical valid in
    let key : AliasKey = record { kind = kind; from = id } in
    let next : AliasKey = record { kind = kind; from = terminal } in
    elim (Bool-cases (is_alias_entity_kind kind)) [
      | inr unknown ↦ cc
      | inl known ↦ elim (Option-cases (lookup next terminals)) [
        | inl last ↦ resolve_known terminals kind terminal none known last
        | inr (far, found) ↦ elim (Option-cases (lookup key terminals)) [
          | inl plain ↦
              let same : id ≡ terminal =
                cc (resolve_known terminals kind id none known plain, resolved) in
              subst (λ x. resolve terminals kind x ≡ ok terminal) same resolved
          | inr (near, aliased) ↦
              let same : near ≡ terminal =
                cc (resolve_known terminals kind id (some near) known aliased, resolved) in
              let first =
                lookup-All (IsResolved canonical terminals) key near terminals all aliased in
              let second =
                lookup-All (IsResolved canonical terminals) next far terminals all found in
              let hit : canonical kind near ≡ true =
                subst (λ o. canonical kind (terminal_or_empty o) ≡ true) aliased first.1 in
              cc (hit, second.0, same)
        ]
      ]
    ]
