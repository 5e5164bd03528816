-- ===== src/Limiter/Stores.antt =====
-- The stores of buckets of labs/scenarios/distributed-rate-limiter/limiter.go: each key's bucket lives
-- as if it were alone.
use works_on_my_whiteboard.Prelude.{
  ℕ, ◌≤◌, ◌<◌, ◌≡◌, ◌∙◌, inl, inr, refl, subst, Option, none, some, List, if◌then◌else◌, Result, ok,
  err, wrap, arith, Bool-cases, String,
}
use works_on_my_whiteboard.Prelude.Int.{pos_part}
use works_on_my_whiteboard.Prelude.Dict.{Key, lookup, insert, lookup-insert}
use works_on_my_whiteboard.GoTime.{time_limit}
use works_on_my_whiteboard.Bucket as TokenBucket
use works_on_my_whiteboard.Bucket.{Bucket, Config, full}
use works_on_my_whiteboard.Bucket.Observe.{IsValid}
use works_on_my_whiteboard.Bucket.Take.{IsWords, IsUsable, new_usable, new-IsValid, take-IsValid}
use works_on_my_whiteboard.Bucket.Rate.{
  granted, Balanced, Balanced-trans, take-Balanced, take-last_observed,
}
use works_on_my_whiteboard.Limiter.{take_bucket, take_keyed}

abbrev pub relabel : String → Result TokenBucket.Decision → Result TokenBucket.Decision
relabel label (ok decision) = ok decision
relabel label (err e) = err (wrap label e)

-- The bucket that is there, or the one that is made at `start`.
abbrev pub or_full : Config → ℕ → Option Bucket → Bucket
or_full config start (some b) = b
or_full config start none = full config.capacity (pos_part config.refill_every) start

-- A bucket is valid, has the configuration's capacity and rate, was not observed after `last`, and its
-- anchor is not before `start`.
pub record IsKept (config : Config) (start last : ℕ) (b : Bucket) : Type 0 where
  pub valid : IsValid b
  pub sized : b.capacity ≡ config.capacity
  pub paced : b.refill_every ≡ pos_part config.refill_every
  pub past : b.last_observed ≤ last
  pub recent : start ≤ b.refill_anchor

take-IsKept :
    (config : Config) (start last now amount : ℕ) (b : Bucket)
    → IsKept config start last b
    → now ≤ last
    → now < time_limit
    → IsKept config start last (TokenBucket.take b now amount).0
take-IsKept config start last now amount b k h i =
    let balanced = take-Balanced b now amount k.valid i in
    record {
      valid = take-IsValid b now amount k.valid i;
      sized = balanced.same_capacity ∙ k.sized;
      paced = balanced.same_rate ∙ k.paced;
      past = take-last_observed b now amount last k.valid i k.past h;
      recent = omega (arith, balanced, k);
    }

full-IsKept :
    (config : Config) (start last now : ℕ)
    → IsUsable config
    → IsWords config
    → start ≤ now
    → now ≤ last
    → now < time_limit
    → IsKept config start last (full config.capacity (pos_part config.refill_every) now)
full-IsKept config start last now u w s h i = record {
  valid = new-IsValid config now w i (new_usable config now u);
  sized = refl;
  paced = refl;
  past = h;
  recent = s;
}

granted-relabel :
    (label : String) (amount : ℕ) (r : Result TokenBucket.Decision)
    → granted amount (relabel label r) ≡ granted amount r
granted-relabel label amount (ok d) = refl
granted-relabel label amount (err e) = refl

or_full-IsKept :
    (config : Config) (start last now : ℕ) (found : Option Bucket)
    → IsUsable config
    → IsWords config
    → start ≤ now
    → now ≤ last
    → now < time_limit
    → ((b : Bucket) → found ≡ some b → IsKept config start last b)
    → IsKept config start last (or_full config now found)
or_full-IsKept config start last now (some b) u w s h i kept = kept b refl
or_full-IsKept config start last now none u w s h i kept =
    full-IsKept config start last now u w s h i

pub or_full-anchor :
    (config : Config) (start last : ℕ) (found : Option Bucket)
    → start ≤ last
    → ((b : Bucket) → found ≡ some b → IsKept config start last b)
    → (or_full config start found).refill_anchor ≤ last
or_full-anchor config start last (some b) h kept =
    let k = kept b refl in omega (arith, k.valid.anchored, k.past)
or_full-anchor config start last none h kept = h

-- A bucket that is made later has had less time.
or_full-Balanced :
    (config : Config) (start now : ℕ) (found : Option Bucket)
    → start ≤ now
    → Balanced (or_full config start found) (or_full config now found) 0
or_full-Balanced config start now (some b) h = omega arith
or_full-Balanced config start now none h = omega arith

Balanced-trans_zero :
    (a b c : Bucket) (out : ℕ) → Balanced a b 0 → Balanced b c out → Balanced a c out
Balanced-trans_zero a b c out f g = let both = Balanced-trans a b c 0 out f g in omega (arith, both)

module _ {K : Type 0} ⦃keys : Key K⦄ (config : Config) where
  -- The buckets of the store are kept.
  abbrev pub IsStore : ℕ → ℕ → List (K × Bucket) → Type 0
  IsStore start last buckets =
      (k : K) (b : Bucket) → lookup k buckets ≡ some b → IsKept config start last b

  -- The bucket of a key, or the one that it would get at `start`.
  abbrev pub bucket_of : ℕ → List (K × Bucket) → K → Bucket
  bucket_of start buckets k = or_full config start (lookup k buckets)

  module _ (create_label take_label : String) where
    abbrev pub ask : List (K × Bucket) → K → ℕ → ℕ → List (K × Bucket) × Result TokenBucket.Decision
    ask = take_keyed create_label take_label config

    -- A request takes the key's bucket, asks it, and stores it again.
    pub ask_usable :
        (buckets : List (K × Bucket)) (key : K) (now amount : ℕ)
        → IsUsable config
        → ask buckets key now amount ≡ (
          insert key (TokenBucket.take (bucket_of now buckets key) now amount).0 buckets,
          relabel take_label (TokenBucket.take (bucket_of now buckets key) now amount).1,
        )
    unfolding take_keyed take_bucket
    ask_usable buckets key now amount u = ground (arith, new_usable config now u)

    stored-IsStore :
        (start last : ℕ) (buckets : List (K × Bucket)) (key : K) (b' : Bucket)
        → IsStore start last buckets
        → IsKept config start last b'
        → IsStore start last (insert key b' buckets)
    stored-IsStore start last buckets key b' kept new k b found =
        elim (Bool-cases (keys.same key k)) [
          | inl same ↦
              let there : some b' ≡ some b = rw (lookup-insert key k b' buckets, same) at found in
              let here : b' ≡ b = cc in subst (IsKept config start last) here new
          | inr other ↦ kept k b (rw (lookup-insert key k b' buckets, other) at found)
        ]

    -- One request: the store is kept, and the books of every key's bucket are, with the tokens going to
    -- the key that asked.
    pub ask-Balanced :
        (start last : ℕ) (buckets : List (K × Bucket)) (key k : K) (now amount : ℕ)
        → IsUsable config
        → IsWords config
        → start ≤ now
        → now ≤ last
        → now < time_limit
        → IsStore start last buckets
        → IsStore start last (ask buckets key now amount).0
          × Balanced
              (bucket_of start buckets k)
              (bucket_of start (ask buckets key now amount).0 k)
              (if keys.same key k then granted amount (ask buckets key now amount).1 else 0)
    ask-Balanced start last buckets key k now amount u w s h i kept =
        let b = bucket_of now buckets key in
        let b' = (TokenBucket.take b now amount).0 in
        let kept_b =
          or_full-IsKept config start last now (lookup key buckets) u w s h i (kept key) in
        let taken = take-Balanced b now amount kept_b.valid i in
        let made = or_full-Balanced config start now (lookup key buckets) s in
        rw (ask_usable buckets key now amount u, granted-relabel)
          (
            stored-IsStore start last buckets key b' kept
                (take-IsKept config start last now amount b kept_b h i),
            elim (Bool-cases (keys.same key k)) [
              | inl same ↦
                  let same_key : key ≡ k = (keys.same_iff key k).0 same in
                  rw (lookup-insert key k b' buckets, same)
                    (subst
                      (λ j.
                        Balanced (bucket_of start buckets j) b'
                          (granted amount (TokenBucket.take b now amount).1))
                      same_key
                      (Balanced-trans_zero (bucket_of start buckets key) b b' _ made taken))
              | inr other ↦ rw (lookup-insert key k b' buckets, other) (omega arith)
            ],
          )
