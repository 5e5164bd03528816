-- ===== src/Bucket/Take.antt =====
-- New, Take and Available of labs/primitives/token-bucket/bucket.go, on every branch.
use native.Mathlib.Decide.{dec_lt}
use works_on_my_whiteboard.Prelude.{
  ℕ, ◌-◌, ◌%◌, ◌≤◌, ◌<◌, ◌≡◌, ◌⊎◌, inl, inr, ltb, ◌==◌, if◌then◌else◌, GoError, Sentinel, sentinel,
  ok, err, arith, u64_mod,
}
use works_on_my_whiteboard.Prelude.Int.{pos_part}
use works_on_my_whiteboard.GoTime.{max_duration, time_limit}
use works_on_my_whiteboard.Bucket.{
  Bucket, Config, new, spend, spend_observed, available_observed, take, available, full,
}
use works_on_my_whiteboard.Bucket.Observe.{
  IsValid, IsTimely, advanced, rolled_back, overflown, timely, observation, observe_locked-advanced,
  observe_locked_rollback, observe_locked_overflow, advanced-IsValid,
}

-- A request that the bucket looks at: some tokens, and no more than it can hold.
pub record IsAskable (b : Bucket) (amount : ℕ) : Type 0 where
  pub some_tokens : 0 < amount
  pub fits : amount ≤ b.capacity

-- The error that an observation of a valid bucket ends with.
abbrev pub clock_error : Bucket → ℕ → GoError
clock_error b now =
    if ltb now b.last_observed
    then sentinel Sentinel.time_rollback
    else sentinel Sentinel.time_overflow

-- A timely request for a fitting number of tokens is decided on the refilled bucket.
pub take_timely :
    (b : Bucket) (now amount : ℕ)
    → IsValid b
    → IsTimely b now
    → IsAskable b amount
    → take b now amount ≡ (
      (spend (advanced b now) ((now - b.refill_anchor) % b.refill_every) amount).0,
      ok (spend (advanced b now) ((now - b.refill_anchor) % b.refill_every) amount).1,
    )
unfolding take spend_observed
take_timely b now amount v t a = ground (arith, observe_locked-advanced b now v t)

pub available_timely :
    (b : Bucket) (now : ℕ)
    → IsValid b
    → IsTimely b now
    → available b now ≡ (advanced b now, ok (advanced b now).available)
unfolding available available_observed
available_timely b now v t = rw (observe_locked-advanced b now v t)

pub available_untimely :
    (b : Bucket) (now : ℕ)
    → IsValid b
    → now < time_limit
    → (now < b.last_observed) ⊎ (max_duration < now - b.refill_anchor)
    → available b now ≡ (b, err (clock_error b now))
unfolding available available_observed
available_untimely b now v i bad = elim (observation b now i) [
  | rolled_back early ↦ ground (arith, observe_locked_rollback b now early)
  | overflown late far ↦ ground (arith, observe_locked_overflow b now v late i far)
  | timely t ↦ absurd (omega arith)
]

pub take_untimely :
    (b : Bucket) (now amount : ℕ)
    → IsValid b
    → now < time_limit
    → (now < b.last_observed) ⊎ (max_duration < now - b.refill_anchor)
    → IsAskable b amount
    → take b now amount ≡ (b, err (clock_error b now))
unfolding take spend_observed
take_untimely b now amount v i bad a = elim (observation b now i) [
  | rolled_back early ↦ ground (arith, observe_locked_rollback b now early)
  | overflown late far ↦ ground (arith, observe_locked_overflow b now v late i far)
  | timely t ↦ absurd (omega arith)
]

-- A request for no token, or for more than the capacity, is refused whatever the time.
pub take_unaskable :
    (b : Bucket) (now amount : ℕ)
    → (amount ≡ 0) ⊎ (b.capacity < amount)
    → take b now amount ≡ (
      b,
      err (
          sentinel
            (if amount == 0 then Sentinel.invalid_amount else Sentinel.amount_exceeds_capacity)),
    )
unfolding take
take_unaskable b now amount bad = ground arith

spend-IsValid :
    (b : Bucket) (remainder amount : ℕ) → IsValid b → IsValid (spend b remainder amount).0
unfolding spend
spend-IsValid b remainder amount v = ground arith

-- How a call of `Take` on a valid bucket goes.
pub data Outcome (b : Bucket) (now amount : ℕ) : Type 0 where
  decided : IsTimely b now → IsAskable b amount → Outcome b now amount
  refused : (e : GoError) → take b now amount ≡ (b, err e) → Outcome b now amount

askable-Outcome :
    (b : Bucket) (now amount : ℕ)
    → IsValid b
    → now < time_limit
    → IsAskable b amount
    → Outcome b now amount
askable-Outcome b now amount v i a = elim (observation b now i) [
  | rolled_back early ↦ refused _ (take_untimely b now amount v i (inl early) a)
  | overflown late far ↦ refused _ (take_untimely b now amount v i (inr far) a)
  | timely t ↦ decided t a
]

pub outcome : (b : Bucket) (now amount : ℕ) → IsValid b → now < time_limit → Outcome b now amount
outcome b now amount v i = elim (dec_lt 0 amount) [
  | no nothing ↦ refused _ (take_unaskable b now amount (inl (omega arith)))
  | yes something ↦ elim (dec_lt b.capacity amount) [
    | yes large ↦ refused _ (take_unaskable b now amount (inr large))
    | no fits ↦
        askable-Outcome b now amount v i (record { some_tokens = something; fits = omega arith })
  ]
]

-- `Take` keeps a bucket valid, whatever it returns.
pub take-IsValid :
    (b : Bucket) (now amount : ℕ) → IsValid b → now < time_limit → IsValid (take b now amount).0
take-IsValid b now amount v i = elim (outcome b now amount v i) [
  | decided t a ↦
      rw (take_timely b now amount v t a) (spend-IsValid _ _ amount (advanced-IsValid b now v t))
  | refused e same ↦ rw same v
]

pub available-IsValid :
    (b : Bucket) (now : ℕ) → IsValid b → now < time_limit → IsValid (available b now).0
available-IsValid b now v i = elim (observation b now i) [
  | rolled_back early ↦ rw (available_untimely b now v i (inl early)) v
  | overflown late far ↦ rw (available_untimely b now v i (inr far)) v
  | timely t ↦ rw (available_timely b now v t) (advanced-IsValid b now v t)
]

-- A configuration of machine words.
pub record IsWords (config : Config) : Type 0 where
  pub capacity_word : config.capacity < u64_mod
  pub refill_duration : pos_part config.refill_every ≤ max_duration

-- A configuration that `New` accepts.
pub record IsUsable (config : Config) : Type 0 where
  pub capacity_pos : 0 < config.capacity
  pub refill_pos : 0 < pos_part config.refill_every

pub new_usable :
    (config : Config) (now : ℕ)
    → IsUsable config
    → new config now ≡ ok (full config.capacity (pos_part config.refill_every) now)
unfolding new
new_usable config now u = ground arith

pub new-eq-ok :
    (config : Config) (now : ℕ) {b : Bucket}
    → new config now ≡ ok b
    → IsUsable config × (b ≡ full config.capacity (pos_part config.refill_every) now)
unfolding new
new-eq-ok config now h = (ground arith, ground arith)

-- Whatever `New` returns without an error is a valid bucket.
pub new-IsValid :
    (config : Config) (now : ℕ) {b : Bucket}
    → IsWords config
    → now < time_limit
    → new config now ≡ ok b
    → IsValid b
new-IsValid config now {b} w i h = let (u, e) = new-eq-ok config now h in rw e (omega arith)
