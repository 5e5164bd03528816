-- ===== src/Alias/Build/Loops.antt =====
-- internal/catalog/alias.go: the loops of NewAliasSet over the keys and over the aliases.
use works_on_my_whiteboard.Prelude.{
  ℕ, suc, ◌≤◌, ◌≡◌, true, false, not, none, some, Option, List, [], ◌∷◌, if◌then◌else◌, String,
  refl, sym, ap, subst, ◌∙◌, arith, All, Bool-cases, inl, inr, Result, ok, err, GoError,
  else_check-none, check-none,
}
use works_on_my_whiteboard.Prelude.Dict.{str_eq, lookup, insert, lookup-insert}
use works_on_my_whiteboard.Alias.{
  Alias, AliasKey, alias_key, key_eq, key_eq_iff, is_alias_entity_kind,
}
use works_on_my_whiteboard.Alias.Build.{
  Direct, AliasSearch, Cached, state_of, is_there, cache_terminal, cache_each, then_each, key_of,
  check_alias, or_fail, direct_of,
}
use works_on_my_whiteboard.Alias.Build.Chains.{
  Reaches, fresh_keys, Inv, Kept, IsGood, fresh_keys-Kept,
}
use works_on_my_whiteboard.Alias.Build.Correct.{cache_terminal-IsGood}

-- The result of the loop over the keys.
abbrev pub IsEach : Direct → List AliasKey → AliasSearch → Option (Result AliasSearch) → Type 0
IsEach direct keys st none = ⊥
IsEach direct keys st (some (err e)) = (start : AliasKey) × Reaches direct start start
IsEach direct keys st (some (ok st')) =
    Inv direct st' × All (λ key. state_of st' key ≡ 2) keys × Kept st st'

abbrev pub NoGrey : AliasSearch → Type 0
NoGrey st = (key : AliasKey) → ¬ (state_of st key ≡ 1)

Kept-NoGrey : (st st' : AliasSearch) → Kept st st' → NoGrey st → NoGrey st'
Kept-NoGrey st st' kept none_grey key grey = elim (kept key) [
  | inl same ↦ none_grey key (sym same ∙ grey)
  | inr done ↦ cc
]

Kept-done :
    (st st' : AliasSearch) (key : AliasKey)
    → Kept st st'
    → state_of st key ≡ 2
    → state_of st' key ≡ 2
Kept-done st st' key kept done = elim (kept key) [ inl same ↦ same ∙ done | inr now ↦ now ]

Kept-trans : (a b c : AliasSearch) → Kept a b → Kept b c → Kept a c
Kept-trans a b c first_kept then_kept key = elim (then_kept key) [
  | inr done ↦ inr done
  | inl same ↦ elim (first_kept key) [
    | inl before ↦ inl (same ∙ before)
    | inr done ↦ inr (same ∙ done)
  ]
]

pub cache_each-IsEach :
    (fuel : ℕ) (direct : Direct) (keys : List AliasKey) (st : AliasSearch)
    → All (λ key. is_there (lookup key direct) ≡ true) keys
    → Inv direct st
    → NoGrey st
    → suc (fresh_keys direct st) ≤ fuel
    → IsEach direct keys st (cache_each fuel direct keys st)
unfolding cache_each
cache_each-IsEach fuel direct [] st there inv none_grey enough = (inv, tt, λ key. inl refl)
cache_each-IsEach fuel direct (key ∷ keys) st there inv none_grey enough =
    rest (cache_terminal fuel direct key st)
      (cache_terminal-IsGood fuel direct key st there.0 inv (λ k grey. absurd (none_grey k grey))
        enough)
      (λ st' inv' kept.
        cache_each-IsEach fuel direct keys st' there.1 inv' (Kept-NoGrey st st' kept none_grey)
          (omega (arith, fresh_keys-Kept direct st st' kept, enough)))
  where
    joined :
        (st' : AliasSearch) (r : Option (Result AliasSearch))
        → state_of st' key ≡ 2
        → Kept st st'
        → IsEach direct keys st' r
        → IsEach direct (key ∷ keys) st r
    joined st' none done kept h = h
    joined st' (some (err e)) done kept h = h
    joined st' (some (ok st2)) done kept h =
        (h.0, (Kept-done st' st2 key h.2 done, h.1), Kept-trans st st' st2 kept h.2)

    rest :
        (one : Cached)
        → IsGood direct key st one
        → ((st' : AliasSearch)
            → Inv direct st'
            → Kept st st'
            → IsEach direct keys st' (cache_each fuel direct keys st'))
        → IsEach direct (key ∷ keys) st (then_each one (λ st'. cache_each fuel direct keys st'))
    rest none good others = good
    rest (some (err e)) good others = good
    rest (some (ok (end, st'))) good others =
        joined st' (cache_each fuel direct keys st') good.3 good.2 (others st' good.1 good.2)

-- Of a known kind, between two texts that are not empty and differ.
abbrev pub IsAlias : Alias → Type 0
IsAlias alias =
    (is_alias_entity_kind alias.kind ≡ true)
    × (str_eq alias.from "" ≡ false)
    × (str_eq alias.to "" ≡ false)
    × (str_eq alias.from alias.to ≡ false)

check_alias-none :
    (direct : Direct) (alias : Alias)
    → check_alias direct alias ≡ none
    → IsAlias alias × (is_there (lookup (key_of alias) direct) ≡ false)
unfolding check_alias
check_alias-none direct alias h =
    let (kind, h1) = else_check-none _ _ h in
    let (from, h2) = else_check-none _ _ h1 in
    let (to, h3) = else_check-none _ _ h2 in
    let (apart, new) = else_check-none _ _ h3 in
    let known : not (is_alias_entity_kind alias.kind) ≡ false = check-none _ _ kind in
    (
      (ground arith, check-none _ _ from, check-none _ _ to, check-none _ _ apart),
      check-none _ _ new,
    )

abbrev pub Keeps : Direct → Direct → Type 0
Keeps before direct =
    (key : AliasKey) (to : String) → lookup key before ≡ some to → lookup key direct ≡ some to

abbrev pub IsDirectOf : Direct → Direct → List Alias → Type 0
IsDirectOf before direct aliases =
    All (λ alias. IsAlias alias × (lookup (key_of alias) direct ≡ some alias.to)) aliases
    × Keeps before direct

insert-Keeps :
    (key : AliasKey) (to : String) (before : Direct)
    → is_there (lookup key before) ≡ false
    → Keeps before (insert key to before)
insert-Keeps key to before new k end found = elim (Bool-cases (key_eq key k)) [
  | inl same ↦
      let eq = (key_eq_iff key k).0 same in
      cc (ap (λ x. is_there (lookup x before)) eq, ap (λ f. is_there f) found, new)
  | inr apart ↦ lookup-insert key k to before ∙ rw apart found
]

pub direct_of-IsDirectOf :
    (before direct : Direct) (aliases : List Alias)
    → direct_of before aliases ≡ ok direct
    → IsDirectOf before direct aliases
unfolding direct_of
direct_of-IsDirectOf before direct [] h =
    let same : before ≡ direct = ground arith in
    (tt, subst (λ d. Keeps before d) same (λ key to found. found))
direct_of-IsDirectOf before direct (alias ∷ aliases) h =
    split (check_alias before alias) refl h
      (λ k. direct_of-IsDirectOf (insert (key_of alias) alias.to before) direct aliases k)
  where
    included :
        IsAlias alias × (is_there (lookup (key_of alias) before) ≡ false)
        → IsDirectOf (insert (key_of alias) alias.to before) direct aliases
        → IsDirectOf before direct (alias ∷ aliases)
    included (sound, new) (others, keeps) = (
      (
        (
          sound,
          keeps (key_of alias) alias.to (
              lookup-insert (key_of alias) (key_of alias) alias.to before
              ∙ ap (λ same. if same then some alias.to else lookup (key_of alias) before)
                  ((key_eq_iff (key_of alias) (key_of alias)).1 refl)),
        ),
        others,
      ),
      λ key to found. keeps key to (insert-Keeps (key_of alias) alias.to before new key to found),
    )

    split :
        (checked : Option GoError)
        → check_alias before alias ≡ checked
        → or_fail checked (direct_of (insert (key_of alias) alias.to before) aliases) ≡ ok direct
        → (direct_of (insert (key_of alias) alias.to before) aliases ≡ ok direct
            → IsDirectOf (insert (key_of alias) alias.to before) direct aliases)
        → IsDirectOf before direct (alias ∷ aliases)
    split none clean h others = included (check_alias-none before alias clean) (others h)
    split (some e) bad h others = cc
