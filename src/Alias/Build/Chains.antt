-- ===== src/Alias/Build/Chains.antt =====
-- internal/catalog/alias.go: chains of aliases, and what holds while their terminals are found.
use works_on_my_whiteboard.Prelude.{
  ℕ, suc, ◌≤◌, ◌≡◌, ◌==◌, Bool, true, false, not, ◌&&◌, none, some, Option, [], ◌∷◌, if◌then◌else◌,
  String, refl, ap, subst, ◌∙◌, arith, keep_if, length, Bool-cases, inl, inr, ◌⊎◌, ok, err,
}
use works_on_my_whiteboard.Prelude.Dict.{lookup, lookup-insert}
use works_on_my_whiteboard.Alias.{AliasKey, alias_key, key_eq, key_eq_iff}
use works_on_my_whiteboard.Alias.Build.{
  Direct, AliasSearch, Cached, state_of, number_or_zero, mark, is_there, settle, settled,
}

abbrev pub after : AliasKey → String → AliasKey
after key to = record { kind = key.kind; from = to }

-- Following the aliases from a key leads to a text that is no alias of the kind.
pub data Leads (direct : Direct) : AliasKey → String → Type 0 where
  at_end :
      {key : AliasKey} {to : String}
      → lookup key direct ≡ some to
      → lookup (after key to) direct ≡ none
      → Leads direct key to
  onward :
      {key : AliasKey} {to end : String}
      → lookup key direct ≡ some to
      → Leads direct (after key to) end
      → Leads direct key end

-- Following the aliases, one or more, from a key comes to another.
pub data Reaches (direct : Direct) (key : AliasKey) : AliasKey → Type 0 where
  first : {to : String} → lookup key direct ≡ some to → Reaches direct key (after key to)
  further :
      {mid : AliasKey} {to : String}
      → Reaches direct key mid
      → lookup mid direct ≡ some to
      → Reaches direct key (after mid to)

abbrev pub is_fresh : AliasSearch → AliasKey → Bool
is_fresh st key = not (state_of st key == 1) && not (state_of st key == 2)

pub fresh_keys : Direct → AliasSearch → ℕ
fresh_keys direct st = length (keep_if (λ e. is_fresh st e.0) direct)

-- The terminals of the keys that are done.
abbrev pub Inv : Direct → AliasSearch → Type 0
Inv direct st =
    (key : AliasKey)
    → state_of st key ≡ 2
    → (end : String) × (lookup key st.terminals ≡ some end) × Leads direct key end

-- A call leaves the state of a key, or the key is done.
abbrev pub Kept : AliasSearch → AliasSearch → Type 0
Kept st st' = (key : AliasKey) → (state_of st' key ≡ state_of st key) ⊎ (state_of st' key ≡ 2)

abbrev pub IsGood : Direct → AliasKey → AliasSearch → Cached → Type 0
IsGood direct key st none = ⊥
IsGood direct key st (some (err e)) = (start : AliasKey) × Reaches direct start start
IsGood direct key st (some (ok (end, st'))) =
    Leads direct key end × Inv direct st' × Kept st st' × (state_of st' key ≡ 2)

pub state_of-insert :
    (key k : AliasKey) (n : ℕ) (st : AliasSearch)
    → state_of (mark key n st) k ≡ (if key_eq key k then n else state_of st k)
unfolding state_of
state_of-insert key k n st =
    ap (λ found. number_or_zero found) (lookup-insert key k n st.state)
    ∙ split (key_eq key k) (lookup k st.state)
  where
    split :
        (same : Bool) (found : Option ℕ)
        → number_or_zero (if same then some n else found)
          ≡ (if same then n else number_or_zero found)
    split true found = refl
    split false found = refl

state_of-settled :
    (key k : AliasKey) (end : String) (st : AliasSearch)
    → state_of (settled key end st) k ≡ (if key_eq key k then 2 else state_of st k)
unfolding state_of
state_of-settled key k end st = state_of-insert key k 2 st

pub fresh_keys-Kept :
    (direct : Direct) (st st' : AliasSearch)
    → Kept st st'
    → fresh_keys direct st' ≤ fresh_keys direct st
unfolding fresh_keys
fresh_keys-Kept [] st st' kept = omega arith
fresh_keys-Kept (e ∷ direct) st st' kept =
    ground (arith, fresh_keys-Kept direct st st' kept, kept e.0)

fresh_keys-mark :
    (direct : Direct) (key : AliasKey) (st : AliasSearch)
    → fresh_keys direct (mark key 1 st) ≤ fresh_keys direct st
unfolding fresh_keys
fresh_keys-mark [] key st = omega arith
fresh_keys-mark (e ∷ direct) key st =
    ground (arith, fresh_keys-mark direct key st, state_of-insert key e.0 1 st)

-- A fresh alias that is marked is fresh no more.
pub fresh_keys-less :
    (direct : Direct) (key : AliasKey) (st : AliasSearch)
    → is_there (lookup key direct) ≡ true
    → is_fresh st key ≡ true
    → suc (fresh_keys direct (mark key 1 st)) ≤ fresh_keys direct st
unfolding fresh_keys lookup
fresh_keys-less [] key st there fresh = cc
fresh_keys-less (e ∷ direct) key st there fresh = elim (Bool-cases (key_eq e.0 key)) [
  | inl same ↦
      let eq = (key_eq_iff e.0 key).0 same in
      ground (
        arith,
        fresh_keys-mark direct key st,
        state_of-insert key e.0 1 st,
        key_eq_iff key e.0,
        ap (λ k. state_of st k) eq,
      )
  | inr apart ↦
      ground
        (arith, fresh_keys-less direct key st (ground arith) fresh, state_of-insert key e.0 1 st)
]

-- What settles a key whose chain ends at `end`.
pub settle-IsGood :
    (direct : Direct) (key : AliasKey) (end : String) (st st' : AliasSearch)
    → Leads direct key end
    → Inv direct st'
    → Kept (mark key 1 st) st'
    → IsGood direct key st (settle key (some (ok (end, st'))))
settle-IsGood direct key end st st' leads inv kept = (
  leads,
  settled-Inv,
  settled-Kept,
  ground (arith, state_of-settled key key end st', key_eq_iff key key),
)
  where
    settled-Inv : Inv direct (settled key end st')
    settled-Inv k done = elim (Bool-cases (key_eq key k)) [
      | inl same ↦
          let eq = (key_eq_iff key k).0 same in
          (
            end,
            lookup-insert key k end st'.terminals ∙ rw same refl,
            subst (λ x. Leads direct x end) eq leads,
          )
      | inr apart ↦
          let before : state_of st' k ≡ 2 =
            ground (arith, state_of-settled key k end st', done, apart) in
          let (to, found, leads_to) = inv k before in
          (to, lookup-insert key k end st'.terminals ∙ rw apart found, leads_to)
    ]

    settled-Kept : Kept st (settled key end st')
    settled-Kept k = elim (Bool-cases (key_eq key k)) [
      | inl same ↦ inr (ground (arith, state_of-settled key k end st', same))
      | inr apart ↦ elim (kept k) [
        | inl same_state ↦ inl (
            ground (
              arith,
              state_of-settled key k end st',
              state_of-insert key k 1 st,
              same_state,
              apart,
            ))
        | inr done ↦ inr (ground (arith, state_of-settled key k end st', done, apart))
      ]
    ]

pub fresh_keys_at_most : (direct : Direct) (st : AliasSearch) → fresh_keys direct st ≤ length direct
unfolding fresh_keys
fresh_keys_at_most [] st = omega arith
fresh_keys_at_most (e ∷ direct) st = ground (arith, fresh_keys_at_most direct st)
