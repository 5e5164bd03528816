-- ===== src/Alias/Build/Correct.antt =====
-- internal/catalog/alias.go: what NewAliasSet returns.
use works_on_my_whiteboard.Prelude.{
  ℕ, zero, suc, ◌≤◌, ◌≡◌, ◌==◌, true, false, none, some, Option, String, refl, sym, subst, arith,
  Bool-cases, inl, inr, ok, err,
}
use works_on_my_whiteboard.Prelude.Dict.{lookup}
use works_on_my_whiteboard.Alias.{AliasKey, alias_key, key_eq, key_eq_iff, terminal_or_empty}
use works_on_my_whiteboard.Alias.Build.{
  Direct, AliasSearch, Cached, state_of, mark, is_there, settle, cache_terminal,
}
use works_on_my_whiteboard.Alias.Build.Chains.{
  after, Leads, at_end, onward, Reaches, first, further, is_fresh, fresh_keys, Inv, IsGood,
  state_of-insert, fresh_keys-less, settle-IsGood,
}

-- The keys in state 1 reach the key of the call.
abbrev pub GreyReaches : Direct → AliasKey → AliasSearch → Type 0
GreyReaches direct key st = (k : AliasKey) → state_of st k ≡ 1 → Reaches direct k key

mark-Inv :
    (direct : Direct) (key : AliasKey) (st : AliasSearch)
    → is_fresh st key ≡ true
    → Inv direct st
    → Inv direct (mark key 1 st)
mark-Inv direct key st fresh inv k done = inv k (ground (arith, state_of-insert key k 1 st, done))

mark-GreyReaches :
    (direct : Direct) (key : AliasKey) (to : String) (st : AliasSearch)
    → lookup key direct ≡ some to
    → GreyReaches direct key st
    → GreyReaches direct (after key to) (mark key 1 st)
mark-GreyReaches direct key to st found greys k grey = elim (Bool-cases (key_eq key k)) [
  | inl same ↦
      subst (λ x. Reaches direct x (after key to)) ((key_eq_iff key k).0 same) (first found)
  | inr apart ↦ further (greys k (ground (arith, state_of-insert key k 1 st, grey, apart))) found
]

mark-Kept-IsGood :
    (direct : Direct) (key : AliasKey) (to : String) (st : AliasSearch) (deeper : Cached)
    → lookup key direct ≡ some to
    → IsGood direct (after key to) (mark key 1 st) deeper
    → IsGood direct key st (settle key deeper)
mark-Kept-IsGood direct key to st none found good = good
mark-Kept-IsGood direct key to st (some (err e)) found good = good
mark-Kept-IsGood direct key to st (some (ok (end, st'))) found good =
    settle-IsGood direct key end st st' (onward found good.0) good.1 good.2

some_of_there :
    (found : Option String) → is_there found ≡ true → found ≡ some (terminal_or_empty found)
some_of_there none h = cc
some_of_there (some to) h = refl

none_of_absent : (found : Option String) → is_there found ≡ false → found ≡ none
none_of_absent none h = refl
none_of_absent (some to) h = cc

-- With enough fuel a call ends, with the end of the key's chain or because a chain comes back.
pub cache_terminal-IsGood :
    (fuel : ℕ) (direct : Direct) (key : AliasKey) (st : AliasSearch)
    → is_there (lookup key direct) ≡ true
    → Inv direct st
    → GreyReaches direct key st
    → suc (fresh_keys direct st) ≤ fuel
    → IsGood direct key st (cache_terminal fuel direct key st)
unfolding cache_terminal
cache_terminal-IsGood zero direct key st there inv greys enough = absurd (omega arith)
cache_terminal-IsGood (suc fuel) direct key st there inv greys enough =
    elim (Bool-cases (state_of st key == 1)) [
      | inl grey ↦ rw grey (key, greys key (ground arith))
      | inr not_grey ↦ elim (Bool-cases (state_of st key == 2)) [
        | inl done ↦
            let (end, found, leads) = inv key (ground arith) in
            rw (not_grey, done)
              (
                subst (λ f. Leads direct key (terminal_or_empty f)) (sym found) leads,
                inv,
                λ k. inl refl,
                ground arith,
              )
        | inr not_done ↦
            let fresh : is_fresh st key ≡ true = ground arith in
            let to = terminal_or_empty (lookup key direct) in
            let found : lookup key direct ≡ some to = some_of_there (lookup key direct) there in
            let less = fresh_keys-less direct key st there fresh in
            elim (Bool-cases (is_there (lookup (after key to) direct))) [
              | inl more ↦
                  rw (not_grey, not_done, more)
                    (mark-Kept-IsGood direct key to st
                      (cache_terminal fuel direct (after key to) (mark key 1 st)) found
                      (cache_terminal-IsGood fuel direct (after key to) (mark key 1 st) more
                        (mark-Inv direct key st fresh inv)
                        (mark-GreyReaches direct key to st found greys)
                        (omega (arith, less, enough))))
              | inr last ↦
                  rw (not_grey, not_done, last)
                    (settle-IsGood direct key to st (mark key 1 st)
                      (at_end found (none_of_absent (lookup (after key to) direct) last))
                      (mark-Inv direct key st fresh inv) (λ k. inl refl))
            ]
      ]
    ]
