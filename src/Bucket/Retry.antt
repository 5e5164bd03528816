-- ===== src/Bucket/Retry.antt =====
-- retryAfter of labs/primitives/token-bucket/bucket.go: the wait that a denial announces.
use native.Mathlib.Nat.{mod-lt, mod-le, le-div_iff_mul-le, div-le_self}
use works_on_my_whiteboard.Prelude.{
  ℕ, zero, suc, ◌+◌, ◌-◌, ◌*◌, ◌/◌, ◌%◌, ◌≤◌, ◌<◌, min, ◌≡◌, ◌↔◌, false, leb, ltb, ap, ◌∙◌, ok,
  arith,
}
use works_on_my_whiteboard.GoTime.{max_duration}
use works_on_my_whiteboard.Bucket.{Bucket, Decision, take, spend, retry_after}
use works_on_my_whiteboard.Bucket.Observe.{IsValid, IsTimely, advanced, advanced-IsValid}
use works_on_my_whiteboard.Bucket.Take.{outcome, decided, refused, IsAskable, take_timely}

-- With the division turned into a product.
extra-lt :
    (r first extra : ℕ)
    → 0 < r
    → first ≤ max_duration
    → ltb ((max_duration - first) / r) extra ≡ ltb max_duration (first + extra * r)
extra-lt r first extra p f =
    grind (arith, le-div_iff_mul-le {k = r} {x = extra} {y = max_duration - first} p)

-- The wait is what is left of `need` intervals, cut at the largest Duration: no product or sum in it
-- leaves the range of an int64.
pub retry_after-eq-min :
    (r remainder need : ℕ)
    → r ≤ max_duration
    → remainder < r
    → 0 < need
    → retry_after r remainder need ≡ min max_duration (need * r - remainder)
unfolding retry_after
retry_after-eq-min r remainder zero d h p = absurd (omega arith)
retry_after-eq-min r remainder (suc zero) d h p = ground arith
retry_after-eq-min r remainder (suc (suc n)) d h p = ground (
  arith,
  extra-lt r (r - remainder) (suc n) (omega arith) (omega arith),
  div-le_self (max_duration - (r - remainder)) r,
)

-- The tokens of a valid bucket reach `amount` after a wait of `w` exactly when the rest of the
-- missing intervals is over by then.
refill_reaches :
    (r remainder w need : ℕ) → 0 < r → (need ≤ (remainder + w) / r) ↔ (need * r - remainder ≤ w)
refill_reaches r remainder w need p = (
  λ h. omega (arith, (le-div_iff_mul-le {k = r} {x = need} {y = remainder + w} p).0 h),
  λ h. (le-div_iff_mul-le {k = r} {x = need} {y = remainder + w} p).1 (omega arith),
)

-- What `Take` hands out when it decides.
allowed-take :
    (b : Bucket) (now amount : ℕ) {d : Decision}
    → IsValid b
    → IsTimely b now
    → IsAskable b amount
    → (take b now amount).1 ≡ ok d
    → d.allowed ≡ leb amount (advanced b now).available
unfolding spend
allowed-take b now amount v t a h = ground (arith, take_timely b now amount v t a)

-- What a denial says of the bucket that it leaves.
record Denial (b : Bucket) (now amount : ℕ) (d : Decision) : Type 0 where
  askable : IsAskable b amount
  left : (take b now amount).0 ≡ advanced b now
  short : (advanced b now).available < amount
  wait :
      d.retry_after
      ≡ min max_duration (
          (amount - (advanced b now).available) * b.refill_every
          - (now - b.refill_anchor) % b.refill_every)

denied_wait :
    (b : Bucket) (now amount : ℕ) {d : Decision}
    → IsValid b
    → IsTimely b now
    → IsAskable b amount
    → (take b now amount).1 ≡ ok d
    → d.allowed ≡ false
    → Denial b now amount d
unfolding spend
denied_wait b now amount v t a h n =
    let taken = take_timely b now amount v t a in
    let short : (advanced b now).available < amount =
      ground (arith, allowed-take b now amount v t a h) in
    record {
      askable = a;
      left = ground (arith, taken);
      short = short;
      wait = ground (
        arith,
        taken,
        retry_after-eq-min b.refill_every ((now - b.refill_anchor) % b.refill_every)
            (amount - (advanced b now).available) v.refill_duration (mod-lt _ v.refill_pos)
            (omega arith),
      );
    }

denial :
    (b : Bucket) (now amount : ℕ) {d : Decision}
    → IsValid b
    → IsTimely b now
    → (take b now amount).1 ≡ ok d
    → d.allowed ≡ false
    → Denial b now amount d
denial b now amount v t h n = elim (outcome b now amount v t.instant) [
  | decided _ a ↦ denied_wait b now amount v t a h n
  | refused e same ↦ absurd (cc)
]

-- The next request, on the bucket that the denial leaves.
again :
    (b : Bucket) (now amount w : ℕ)
    → IsValid b
    → b.last_observed ≤ now
    → 0 < amount
    → amount ≤ b.capacity
    → (advanced b now).available < amount
    → leb amount (advanced (advanced b now) (now + w)).available
      ≡ leb
          ((amount - (advanced b now).available) * b.refill_every
            - (now - b.refill_anchor) % b.refill_every)
          w
again b now amount w v l p f short =
    let rem = (now - b.refill_anchor) % b.refill_every in
    let left = (advanced b now).available in
    let gone : now + w - (now - rem) ≡ rem + w =
      omega (arith, mod-le (now - b.refill_anchor) b.refill_every) in
    rw gone (ground (arith, refill_reaches b.refill_every rem w (amount - left) v.refill_pos))

-- A denial's RetryAfter, when it is not cut at the largest Duration, is exact: the same request made
-- again after a wait of w is allowed if and only if RetryAfter is at most w, as long as the clock
-- reading after the wait is one that the bucket accepts.
pub retry_after_exact :
    (b : Bucket) (now amount w : ℕ) {d d' : Decision}
    → IsValid b
    → IsTimely b now
    → IsTimely (take b now amount).0 (now + w)
    → (take b now amount).1 ≡ ok d
    → d.allowed ≡ false
    → d.retry_after < max_duration
    → (take (take b now amount).0 (now + w) amount).1 ≡ ok d'
    → d'.allowed ≡ leb d.retry_after w
retry_after_exact b now amount w {d} {d'} v t t' h n s h' =
    let den = denial b now amount v t h n in
    let c = advanced b now in
    let t'' : IsTimely c (now + w) = rw den.left at t' in
    let h'' : (take c (now + w) amount).1 ≡ ok d' = rw den.left at h' in
    let a : IsAskable c amount = omega (arith, den.askable) in
    let first = allowed-take c (now + w) amount (advanced-IsValid b now v t) t'' a h'' in
    first
    ∙ again b now amount w v t.later den.askable.some_tokens den.askable.fits den.short
    ∙ ap (λ x. leb x w) (omega (arith, den.wait))
