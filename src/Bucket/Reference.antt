-- ===== src/Bucket/Reference.antt =====
-- referenceBucket of labs/primitives/token-bucket/run.go: the independent model of the refill that the
-- experiment can run in place of the bucket, and its agreement with the bucket.
use native.Mathlib.Decide.{dec_lt}
use native.Mathlib.Nat.{mod-lt}
use works_on_my_whiteboard.Prelude.{
  ℕ, ◌+◌, ◌-◌, ◌*◌, ◌/◌, ◌%◌, ◌≤◌, ◌<◌, ◌≡◌, ◌≢◌, ◌⊎◌, inl, inr, ap, true, false, leb, ltb, ◌==◌,
  u64, u64_sub, if◌then◌else◌, Result, ok, err, arith, Sentinel, sentinel,
}
use works_on_my_whiteboard.Prelude.Int.{pos_part}
use works_on_my_whiteboard.GoTime
use works_on_my_whiteboard.GoTime.{time_limit, max_duration, sub_exact}
use works_on_my_whiteboard.Bucket.{Bucket, Decision, Config, take, spend, retry_after}
use works_on_my_whiteboard.Bucket.Observe.{
  IsValid, IsTimely, advanced, refilled-eq-advanced, rolled_back, overflown, timely, observation,
}
use works_on_my_whiteboard.Bucket.Take.{IsAskable, take_timely, take_unaskable, take_untimely}

pub record ReferenceBucket : Type 0 where
  pub capacity : ℕ
  pub available : ℕ
  pub refill_every : ℕ
  pub refill_anchor : ℕ
  pub last_observed : ℕ

-- newReferenceBucket; the interval of the configuration that the experiment uses is positive.
unfoldable pub new_reference_bucket : Config → ℕ → ReferenceBucket
new_reference_bucket config now = record {
  capacity = config.capacity;
  available = config.capacity;
  refill_every = pos_part config.refill_every;
  refill_anchor = now;
  last_observed = now;
}

-- The wait of a denial, computed in line by the reference.
unfoldable pub reference_wait : ℕ → ℕ → ℕ → ℕ
reference_wait refill_every remainder missing =
    let wait = max_duration in
    let first_interval = refill_every - remainder in
    let additional = missing - 1 in
    if leb additional (u64 ((wait - first_interval) / refill_every))
    then first_interval + additional * refill_every
    else wait

-- The refill of the reference, `elapsed` after the anchor.
unfoldable pub reference_refilled : ReferenceBucket → ℕ → ℕ → ReferenceBucket
reference_refilled b now elapsed =
    let intervals = u64 (elapsed / b.refill_every) in
    let remainder = elapsed % b.refill_every in
    let space = u64_sub b.capacity b.available in
    record b {
      available = if leb space intervals then b.capacity else u64 (b.available + intervals);
      refill_anchor = GoTime.add b.refill_anchor (elapsed - remainder);
      last_observed = now;
    }

unfoldable pub reference_spend : ReferenceBucket → ℕ → ℕ → ReferenceBucket × Decision
reference_spend b remainder amount =
    let left = b.available - amount in
    let missing = amount - b.available in
    if leb amount b.available
    then (
      record b { available = left },
      record { allowed = true; remaining = left; retry_after = 0 },
    )
    else (
      b,
      record {
        allowed = false;
        remaining = b.available;
        retry_after = reference_wait b.refill_every remainder missing;
      },
    )

unfoldable pub reference_take : ReferenceBucket → ℕ → ℕ → ReferenceBucket × Result Decision
reference_take b now amount =
    let elapsed = GoTime.sub now b.refill_anchor in
    let (b', decision) =
      reference_spend (reference_refilled b now elapsed) (elapsed % b.refill_every) amount in
    if amount == 0
    then (b, err (sentinel Sentinel.invalid_amount))
    else if ltb b.capacity amount
    then (b, err (sentinel Sentinel.amount_exceeds_capacity))
    else if ltb now b.last_observed
    then (b, err (sentinel Sentinel.time_rollback))
    else (b', ok decision)

-- The bucket's fields, as the reference holds them.
abbrev pub as_reference : Bucket → ReferenceBucket
as_reference b = record {
  capacity = b.capacity;
  available = b.available;
  refill_every = b.refill_every;
  refill_anchor = b.refill_anchor;
  last_observed = b.last_observed;
}

reference_wait-retry_after :
    (r remainder need : ℕ)
    → r ≤ max_duration
    → remainder < r
    → 0 < need
    → reference_wait r remainder need ≡ retry_after r remainder need
unfolding reference_wait retry_after
reference_wait-retry_after r remainder need d h p = ground arith

reference_spend_lem :
    (b : Bucket) (remainder amount : ℕ)
    → b.refill_every ≤ max_duration
    → remainder < b.refill_every
    → reference_spend (as_reference b) remainder amount
      ≡ (as_reference (spend b remainder amount).0, (spend b remainder amount).1)
unfolding reference_spend spend
reference_spend_lem b remainder amount d h =
    ground (arith, reference_wait-retry_after b.refill_every remainder (amount - b.available))

reference_refilled-advanced :
    (b : Bucket) (now : ℕ)
    → IsValid b
    → IsTimely b now
    → reference_refilled (as_reference b) now (GoTime.sub now b.refill_anchor)
      ≡ as_reference (advanced b now)
unfolding reference_refilled
reference_refilled-advanced b now v t =
    rw (sub_exact now b.refill_anchor t.near) (ap as_reference (refilled-eq-advanced b now v t))

reference_take_timely :
    (b : Bucket) (now amount : ℕ)
    → IsValid b
    → IsTimely b now
    → IsAskable b amount
    → reference_take (as_reference b) now amount
      ≡ (as_reference (take b now amount).0, (take b now amount).1)
unfolding reference_take
reference_take_timely b now amount v t a =
    let e = now - b.refill_anchor in
    ground (
      arith,
      sub_exact now b.refill_anchor t.near,
      take_timely b now amount v t a,
      reference_refilled-advanced b now v t,
      reference_spend_lem (advanced b now) (e % b.refill_every) amount v.refill_duration
          (mod-lt e v.refill_pos),
    )

reference_take_unaskable :
    (b : Bucket) (now amount : ℕ)
    → (amount ≡ 0) ⊎ (b.capacity < amount)
    → reference_take (as_reference b) now amount
      ≡ (as_reference (take b now amount).0, (take b now amount).1)
unfolding reference_take
reference_take_unaskable b now amount bad = ground (arith, take_unaskable b now amount bad)

reference_take_early :
    (b : Bucket) (now amount : ℕ)
    → IsValid b
    → now < time_limit
    → now < b.last_observed
    → IsAskable b amount
    → reference_take (as_reference b) now amount
      ≡ (as_reference (take b now amount).0, (take b now amount).1)
unfolding reference_take
reference_take_early b now amount v i early a =
    ground (arith, take_untimely b now amount v i (inl early) a)

take_far :
    (b : Bucket) (now amount : ℕ)
    → IsValid b
    → now < time_limit
    → b.last_observed ≤ now
    → max_duration < now - b.refill_anchor
    → IsAskable b amount
    → (take b now amount).1 ≡ err (sentinel Sentinel.time_overflow)
take_far b now amount v i late far a = ground (arith, take_untimely b now amount v i (inr far) a)

reference_take_askable :
    (b : Bucket) (now amount : ℕ)
    → IsValid b
    → now < time_limit
    → IsAskable b amount
    → (take b now amount).1 ≢ err (sentinel Sentinel.time_overflow)
    → reference_take (as_reference b) now amount
      ≡ (as_reference (take b now amount).0, (take b now amount).1)
reference_take_askable b now amount v i a fine = elim (observation b now i) [
  | rolled_back early ↦ reference_take_early b now amount v i early a
  | overflown late far ↦ absurd (fine (take_far b now amount v i late far a))
  | timely t ↦ reference_take_timely b now amount v t a
]

-- The bucket and the reference return the same decision or error, and keep the same fields, on every
-- call in which the bucket does not report that the elapsed time overflows a Duration.
pub reference_take_agrees :
    (b : Bucket) (now amount : ℕ)
    → IsValid b
    → now < time_limit
    → (take b now amount).1 ≢ err (sentinel Sentinel.time_overflow)
    → reference_take (as_reference b) now amount
      ≡ (as_reference (take b now amount).0, (take b now amount).1)
reference_take_agrees b now amount v i fine = elim (dec_lt 0 amount) [
  | no nothing ↦ reference_take_unaskable b now amount (inl (omega arith))
  | yes something ↦ elim (dec_lt b.capacity amount) [
    | yes large ↦ reference_take_unaskable b now amount (inr large)
    | no fits ↦ reference_take_askable b now amount v i (omega arith) fine
  ]
]
