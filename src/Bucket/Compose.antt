-- ===== src/Bucket/Compose.antt =====
-- Observations of labs/primitives/token-bucket/bucket.go do not interfere: looking at a bucket in
-- between changes nothing.
use native.Mathlib.Nat.{mod-le, div-add-mod', add-mul-div_right}
use works_on_my_whiteboard.Prelude.{ℕ, ◌+◌, ◌-◌, ◌*◌, ◌/◌, ◌%◌, ◌≤◌, ◌<◌, ◌≡◌, ap, refl, arith}
use works_on_my_whiteboard.Bucket.{Bucket, take, available, observe_locked}
use works_on_my_whiteboard.Bucket.Observe.{
  IsValid, IsTimely, advanced, advanced-IsValid, observe_locked-advanced,
}
use works_on_my_whiteboard.Bucket.Take.{IsAskable, available_timely}

-- Whole intervals split off an elapsed time.
split_div : (r q x : ℕ) → 0 < r → ((x + q * r) / r ≡ x / r + q) × ((x + q * r) % r ≡ x % r)
split_div r q x p =
    let quotient = add-mul-div_right x q p in
    (
      quotient,
      omega (arith, ap (λ (t : ℕ). t * r) quotient, div-add-mod' x r, div-add-mod' (x + q * r) r),
    )

-- An observation in between does not change the next one.
advanced_twice :
    (b : Bucket) (now w : ℕ)
    → IsValid b
    → b.last_observed ≤ now
    → advanced (advanced b now) (now + w) ≡ advanced b (now + w)
advanced_twice b now w v l =
    let e = now - b.refill_anchor in
    let rem = e % b.refill_every in
    let gone : now + w - (now - rem) ≡ rem + w = omega (arith, mod-le e b.refill_every) in
    let all : now + w - b.refill_anchor ≡ rem + w + e / b.refill_every * b.refill_every =
      omega (arith, div-add-mod' e b.refill_every, mod-le e b.refill_every) in
    let (quotient, remainder) =
      split_div b.refill_every (e / b.refill_every) (rem + w) v.refill_pos in
    rw (gone, all, quotient, remainder) (ground arith)

advanced-IsTimely :
    (b : Bucket) (now w : ℕ)
    → IsValid b
    → IsTimely b now
    → IsTimely b (now + w)
    → IsTimely (advanced b now) (now + w)
advanced-IsTimely b now w v t t' = omega (arith, mod-le (now - b.refill_anchor) b.refill_every)

observe_locked_twice :
    (b : Bucket) (now w : ℕ)
    → IsValid b
    → IsTimely b now
    → IsTimely b (now + w)
    → observe_locked (advanced b now) (now + w) ≡ observe_locked b (now + w)
observe_locked_twice b now w v t t' =
    let e = now - b.refill_anchor in
    let rem = e % b.refill_every in
    let gone : now + w - (now - rem) ≡ rem + w = omega (arith, mod-le e b.refill_every) in
    let all : now + w - b.refill_anchor ≡ rem + w + e / b.refill_every * b.refill_every =
      omega (arith, div-add-mod' e b.refill_every, mod-le e b.refill_every) in
    let same : (now + w - (now - rem)) % b.refill_every
        ≡ (now + w - b.refill_anchor) % b.refill_every =
      rw (gone, all, (split_div b.refill_every (e / b.refill_every) (rem + w) v.refill_pos).1) in
    cc (
      observe_locked-advanced (advanced b now) (now + w) (advanced-IsValid b now v t)
          (advanced-IsTimely b now w v t t'),
      observe_locked-advanced b (now + w) v t',
      advanced_twice b now w v t.later,
      same,
    )

take_of_observe_locked :
    (b c : Bucket) (now amount : ℕ)
    → IsAskable b amount
    → c.capacity ≡ b.capacity
    → observe_locked c now ≡ observe_locked b now
    → take c now amount ≡ take b now amount
unfolding take
take_of_observe_locked b c now amount a e o = ground arith

available_of_observe_locked :
    (b c : Bucket) (now : ℕ)
    → observe_locked c now ≡ observe_locked b now
    → available c now ≡ available b now
unfolding available
available_of_observe_locked b c now o = rw o

-- `Available` at a time that a valid bucket accepts is invisible at each later time that the bucket, as
-- it was before the look, accepts too: a request for at least one token and at most the capacity gets
-- the same decision and leaves the same bucket as without the look, and another look gets the same
-- tokens and leaves the same bucket.
pub available_invisible :
    (b : Bucket) (now w amount : ℕ)
    → IsValid b
    → IsTimely b now
    → IsTimely b (now + w)
    → IsAskable b amount
    → (take (available b now).0 (now + w) amount ≡ take b (now + w) amount)
      × (available (available b now).0 (now + w) ≡ available b (now + w))
available_invisible b now w amount v t t' a =
    let twice = observe_locked_twice b now w v t t' in
    let looked = available_timely b now v t in
    rw looked (
      take_of_observe_locked b (advanced b now) (now + w) amount a refl twice,
      available_of_observe_locked b (advanced b now) (now + w) twice,
    )
