-- ===== src/Bucket.antt =====
-- labs/primitives/token-bucket/bucket.go: the token bucket.
pub mod Observe
pub mod Take
mod Examples
pub mod Spec
pub mod Reference
pub mod Compose
pub mod Rate
pub mod Retry
use works_on_my_whiteboard.Prelude.{
  ℕ, suc, ◌+◌, ◌-◌, ◌*◌, ◌/◌, ◌%◌, Bool, true, false, not, ◌&&◌, Option, none, some, ltb, leb, ◌==◌,
  if◌then◌else◌, u64, u64_sub, Sentinel, GoError, sentinel, message, wrap, Result, ok, err,
}
use works_on_my_whiteboard.Prelude.Int.{ℤ, pos, negsuc}
use works_on_my_whiteboard.GoTime
use works_on_my_whiteboard.GoTime.{max_duration}

pub record Config : Type 0 where
  pub capacity : ℕ
  pub refill_every : ℤ

pub record Decision : Type 0 where
  pub allowed : Bool
  pub remaining : ℕ
  pub retry_after : ℕ

-- The fields that the mutex guards. `refill_every` is positive, so it is kept as a number.
pub record Bucket : Type 0 where
  pub capacity : ℕ
  pub available : ℕ
  pub refill_every : ℕ
  pub refill_anchor : ℕ
  pub last_observed : ℕ

-- The bucket that `New` returns for a valid configuration.
abbrev pub full : ℕ → ℕ → ℕ → Bucket
full capacity refill_every now = record {
  capacity = capacity;
  available = capacity;
  refill_every = refill_every;
  refill_anchor = now;
  last_observed = now;
}

unfoldable pub new : Config → ℕ → Result Bucket
new config now =
    if config.capacity == 0
    then err (wrap "got" (sentinel Sentinel.invalid_capacity))
    else elim config.refill_every [
      | pos (suc r) ↦ ok (full config.capacity (suc r) now)
      | _ ↦ err (wrap "got" (sentinel Sentinel.invalid_refill_every))
    ]

unfoldable pub retry_after : ℕ → ℕ → ℕ → ℕ
retry_after refill_every remainder need =
    let first = refill_every - remainder in
    if leb need 1
    then first
    else let extra_intervals = need - 1 in
      let max_extra_intervals = u64 ((max_duration - first) / refill_every) in
      if ltb max_extra_intervals extra_intervals
      then max_duration
      else first + extra_intervals * refill_every

-- The state after a successful observation at `now`, `elapsed` after the anchor.
abbrev pub refilled : Bucket → ℕ → ℕ → Bucket
refilled b now elapsed =
    let remainder = elapsed % b.refill_every in
    let whole = u64 (elapsed / b.refill_every) in
    record b {
      available =
          if leb (u64_sub b.capacity b.available) whole
          then b.capacity
          else u64 (b.available + whole);
      refill_anchor = GoTime.add b.refill_anchor (elapsed - remainder);
      last_observed = now;
    }

unfoldable pub observe_locked : Bucket → ℕ → Bucket × Result ℕ
observe_locked b now =
    let elapsed = GoTime.sub now b.refill_anchor in
    if ltb now b.last_observed
    then (b, err (sentinel Sentinel.time_rollback))
    else if elapsed == max_duration && not (GoTime.add b.refill_anchor elapsed == now)
    then (b, err (sentinel Sentinel.time_overflow))
    else (refilled b now elapsed, ok (elapsed % b.refill_every))

-- What `Take` does with the tokens after the observation.
unfoldable pub spend : Bucket → ℕ → ℕ → Bucket × Decision
spend b remainder amount =
    let left = b.available - amount in
    let need = amount - b.available in
    if leb amount b.available
    then (
      record b { available = left },
      record { allowed = true; remaining = left; retry_after = 0 },
    )
    else (
      b,
      record {
        allowed = false;
        remaining = b.available;
        retry_after = retry_after b.refill_every remainder need;
      },
    )

unfoldable pub spend_observed : Bucket × Result ℕ → ℕ → Bucket × Result Decision
spend_observed (b, err e) amount = (b, err e)
spend_observed (b, ok remainder) amount =
    let (b', decision) = spend b remainder amount in (b', ok decision)

-- `Take` on a bucket that is not nil.
unfoldable pub take : Bucket → ℕ → ℕ → Bucket × Result Decision
take b now amount =
    if amount == 0
    then (b, err (sentinel Sentinel.invalid_amount))
    else if ltb b.capacity amount
    then (b, err (sentinel Sentinel.amount_exceeds_capacity))
    else spend_observed (observe_locked b now) amount

unfoldable pub available_observed : Bucket × Result ℕ → Bucket × Result ℕ
available_observed (b, err e) = (b, err e)
available_observed (b, ok remainder) = (b, ok b.available)

-- `Available` on a bucket that is not nil.
unfoldable pub available : Bucket → ℕ → Bucket × Result ℕ
available b now = available_observed (observe_locked b now)

-- The methods through a pointer, which may be nil.
unfoldable pub take_pointer : Option Bucket → ℕ → ℕ → Option Bucket × Result Decision
take_pointer none now amount = (
  none,
  err (if amount == 0 then sentinel Sentinel.invalid_amount else message "token bucket is nil"),
)
take_pointer (some b) now amount = let (b', result) = take b now amount in (some b', result)

unfoldable pub available_pointer : Option Bucket → ℕ → Option Bucket × Result ℕ
available_pointer none now = (none, err (message "token bucket is nil"))
available_pointer (some b) now = let (b', result) = available b now in (some b', result)
