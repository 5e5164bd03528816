-- ===== src/Bucket/Spec.antt =====
-- What Take of labs/primitives/token-bucket/bucket.go promises, over the unbounded numbers: no word
-- wraps, no Duration saturates but the announced wait, and the time is read as it is.
use native.Mathlib.Decide.{dec_lt}
use native.Mathlib.Nat.{mod-lt}
use works_on_my_whiteboard.Prelude.{
  ℕ, ◌-◌, ◌*◌, ◌%◌, ◌<◌, ◌≤◌, min, ◌≡◌, inl, inr, true, false, Result, ok, err, Sentinel, sentinel,
  ltb, leb, ◌==◌, if◌then◌else◌, arith,
}
use works_on_my_whiteboard.GoTime.{max_duration, time_limit}
use works_on_my_whiteboard.Bucket.{Bucket, Decision, take, spend}
use works_on_my_whiteboard.Bucket.Observe.{
  IsValid, IsTimely, advanced, rolled_back, overflown, timely, observation,
}
use works_on_my_whiteboard.Bucket.Take.{IsAskable, take_timely, take_untimely, take_unaskable}
use works_on_my_whiteboard.Bucket.Retry.{retry_after-eq-min}

-- The decision on a refilled bucket, `phase` into its current interval.
abbrev pub ideal_spend : Bucket → ℕ → ℕ → Bucket × Result Decision
ideal_spend b phase amount =
    if leb amount b.available
    then (
      record b { available = b.available - amount },
      ok (record { allowed = true; remaining = b.available - amount; retry_after = 0 }),
    )
    else (
      b,
      ok (record {
        allowed = false;
        remaining = b.available;
        retry_after = min max_duration ((amount - b.available) * b.refill_every - phase);
      }),
    )

unfoldable pub ideal_take : Bucket → ℕ → ℕ → Bucket × Result Decision
ideal_take b now amount =
    if amount == 0
    then (b, err (sentinel Sentinel.invalid_amount))
    else if ltb b.capacity amount
    then (b, err (sentinel Sentinel.amount_exceeds_capacity))
    else if ltb now b.last_observed
    then (b, err (sentinel Sentinel.time_rollback))
    else if ltb max_duration (now - b.refill_anchor)
    then (b, err (sentinel Sentinel.time_overflow))
    else ideal_spend (advanced b now) ((now - b.refill_anchor) % b.refill_every) amount

spend_ideal :
    (b : Bucket) (phase amount : ℕ)
    → b.refill_every ≤ max_duration
    → phase < b.refill_every
    → ((spend b phase amount).0, ok (spend b phase amount).1) ≡ ideal_spend b phase amount
unfolding spend
spend_ideal b phase amount d h =
    ground (arith, retry_after-eq-min b.refill_every phase (amount - b.available))

take_on_time :
    (b : Bucket) (now amount : ℕ)
    → IsValid b
    → IsTimely b now
    → IsAskable b amount
    → take b now amount ≡ ideal_take b now amount
unfolding ideal_take
take_on_time b now amount v t a =
    let e = now - b.refill_anchor in
    ground (
      arith,
      take_timely b now amount v t a,
      spend_ideal (advanced b now) (e % b.refill_every) amount v.refill_duration
          (mod-lt e v.refill_pos),
    )

take_askable :
    (b : Bucket) (now amount : ℕ)
    → IsValid b
    → now < time_limit
    → IsAskable b amount
    → take b now amount ≡ ideal_take b now amount
unfolding ideal_take
take_askable b now amount v i a = elim (observation b now i) [
  | rolled_back early ↦ ground (arith, take_untimely b now amount v i (inl early) a)
  | overflown late far ↦ ground (arith, take_untimely b now amount v i (inr far) a)
  | timely t ↦ take_on_time b now amount v t a
]

-- `Take` on a valid bucket is the ideal: its errors in their order, each with the bucket unchanged, or a
-- decision on min(capacity, available + elapsed / interval) tokens, with the missing intervals as the wait.
pub take-ideal_take :
    (b : Bucket) (now amount : ℕ)
    → IsValid b
    → now < time_limit
    → take b now amount ≡ ideal_take b now amount
unfolding ideal_take
take-ideal_take b now amount v i = elim (dec_lt 0 amount) [
  | no nothing ↦ ground (arith, take_unaskable b now amount (inl (omega arith)))
  | yes something ↦ elim (dec_lt b.capacity amount) [
    | yes large ↦ ground (arith, take_unaskable b now amount (inr large))
    | no fits ↦ take_askable b now amount v i (omega arith)
  ]
]
