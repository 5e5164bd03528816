-- ===== src/Bucket/Observe.antt =====
-- observeLocked of labs/primitives/token-bucket/bucket.go on valid buckets, with the words and the
-- saturated durations gone.
use native.Mathlib.Decide.{dec_lt}
use native.Mathlib.Nat.{mod-lt, div-le_self, mod-le}
use works_on_my_whiteboard.Prelude.{
  ℕ, ◌+◌, ◌-◌, ◌/◌, ◌%◌, ◌≤◌, ◌<◌, min, ◌≡◌, ok, err, sentinel, Sentinel, arith, u64_mod,
}
use works_on_my_whiteboard.GoTime.{max_duration, time_limit, add_exact, sub_exact, sub_saturated}
use works_on_my_whiteboard.Bucket.{Bucket, observe_locked, refilled}

pub record IsValid (b : Bucket) : Type 0 where
  pub capacity_pos : 0 < b.capacity
  pub capacity_word : b.capacity < u64_mod
  pub bounded : b.available ≤ b.capacity
  pub refill_pos : 0 < b.refill_every
  pub refill_duration : b.refill_every ≤ max_duration
  pub anchored : b.refill_anchor ≤ b.last_observed
  pub phase : b.last_observed < b.refill_anchor + b.refill_every
  pub instant : b.last_observed < time_limit

-- The state after an observation at `now`, over the unbounded numbers.
abbrev pub advanced : Bucket → ℕ → Bucket
advanced b now =
    let elapsed = now - b.refill_anchor in
    record b {
      available = min b.capacity (b.available + elapsed / b.refill_every);
      refill_anchor = now - elapsed % b.refill_every;
      last_observed = now;
    }

-- An observation that the bucket accepts.
pub record IsTimely (b : Bucket) (now : ℕ) : Type 0 where
  pub later : b.last_observed ≤ now
  pub near : now - b.refill_anchor ≤ max_duration
  pub instant : now < time_limit

pub refilled-eq-advanced :
    (b : Bucket) (now : ℕ)
    → IsValid b
    → IsTimely b now
    → refilled b now (now - b.refill_anchor) ≡ advanced b now
refilled-eq-advanced b now v t =
    let e = now - b.refill_anchor in
    ground (
      arith,
      mod-lt e v.refill_pos,
      mod-le e b.refill_every,
      div-le_self e b.refill_every,
      add_exact b.refill_anchor (e - e % b.refill_every),
    )

-- A timely observation of a valid bucket succeeds, moves it to `advanced`, and returns how far the
-- current refill interval has gone.
pub observe_locked-advanced :
    (b : Bucket) (now : ℕ)
    → IsValid b
    → IsTimely b now
    → observe_locked b now ≡ (advanced b now, ok ((now - b.refill_anchor) % b.refill_every))
unfolding observe_locked
observe_locked-advanced b now v t =
    let e = now - b.refill_anchor in
    rw (sub_exact now b.refill_anchor t.near)
      (ground (arith, add_exact b.refill_anchor e, refilled-eq-advanced b now v t))

pub observe_locked_rollback :
    (b : Bucket) (now : ℕ)
    → now < b.last_observed
    → observe_locked b now ≡ (b, err (sentinel Sentinel.time_rollback))
unfolding observe_locked
observe_locked_rollback b now h = ground arith

pub observe_locked_overflow :
    (b : Bucket) (now : ℕ)
    → IsValid b
    → b.last_observed ≤ now
    → now < time_limit
    → max_duration < now - b.refill_anchor
    → observe_locked b now ≡ (b, err (sentinel Sentinel.time_overflow))
unfolding observe_locked
observe_locked_overflow b now v h i far =
    ground (
      arith,
      sub_saturated now b.refill_anchor (omega arith),
      add_exact b.refill_anchor max_duration,
    )

-- The three outcomes of an observation of a valid bucket.
pub data Observation (b : Bucket) (now : ℕ) : Type 0 where
  rolled_back : now < b.last_observed → Observation b now
  overflown : b.last_observed ≤ now → max_duration < now - b.refill_anchor → Observation b now
  timely : IsTimely b now → Observation b now

pub observation : (b : Bucket) (now : ℕ) → now < time_limit → Observation b now
observation b now i = elim (dec_lt now b.last_observed) [
  | yes early ↦ rolled_back early
  | no late ↦ elim (dec_lt max_duration (now - b.refill_anchor)) [
    | yes far ↦ overflown (omega arith) far
    | no near ↦ timely (record { later = omega arith; near = omega arith; instant = i })
  ]
]

pub advanced-IsValid :
    (b : Bucket) (now : ℕ) → IsValid b → IsTimely b now → IsValid (advanced b now)
advanced-IsValid b now v t =
    let e = now - b.refill_anchor in
    record {
      capacity_pos = v.capacity_pos;
      capacity_word = v.capacity_word;
      bounded = omega arith;
      refill_pos = v.refill_pos;
      refill_duration = v.refill_duration;
      anchored = omega (arith, mod-le e b.refill_every);
      phase = omega (arith, mod-lt e v.refill_pos, mod-le e b.refill_every);
      instant = t.instant;
    }
