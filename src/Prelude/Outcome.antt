-- ===== src/Prelude/Outcome.antt =====
-- Go's errors as values, and the results of fallible functions.
use Prim.Native.String.{String}
use mathlib.Core.Path.{◌≡◌, refl}
use mathlib.Core.Bool.{Bool, true, false}
use mathlib.Core.Option.{Option, none, some}
use works_on_my_whiteboard.Prelude.Tests.{if◌then◌else◌}

-- The errors that the program compares by identity: its own and those of package context.
pub data Sentinel : Type 0 where
  invalid_capacity invalid_refill_every invalid_amount amount_exceeds_capacity : Sentinel
  time_rollback time_overflow : Sentinel
  coordinator_unavailable : Sentinel
  canceled deadline_exceeded : Sentinel
  invalid_record invalid_content_digest manifest_invalid : Sentinel

-- An error tree. `message` is errors.New, or fmt.Errorf without %w; `wrap` is fmt.Errorf with one
-- %w; `joined` is an error with the method `Unwrap() []error`. A text is the constant part of the
-- format, without the values that are printed into it.
mutual
  pub data GoError : Type 0 where
    sentinel : Sentinel → GoError
    message : String → GoError
    wrap : String → GoError → GoError
    joined : GoErrors → GoError

  pub data GoErrors : Type 0 where
    nil : GoErrors
    cons : GoError → GoErrors → GoErrors

-- A value with the error nil, or an error.
pub data Result {ℓ} (A : Type ℓ) : Type ℓ where
  ok : A → Result A
  err : GoError → Result A

-- The first of two checks that fails, in order; each is an early return.
infixr 25 ◌else_check◌
abbrev pub ◌else_check◌ : Option GoError → Option GoError → Option GoError
some e else_check rest = some e
none else_check rest = rest

abbrev pub check : Bool → GoError → Option GoError
check bad e = if bad then some e else none

-- fmt.Errorf with %w on an error that may be nil.
abbrev pub wrapped : String → Option GoError → Option GoError
wrapped label none = none
wrapped label (some e) = some (wrap label e)

pub else_check-none : (a b : Option GoError) → a else_check b ≡ none → (a ≡ none) × (b ≡ none)
else_check-none none b h = (refl, h)
else_check-none (some e) b h = cc

pub check-none : (bad : Bool) (e : GoError) → check bad e ≡ none → bad ≡ false
check-none true e h = cc
check-none false e h = refl

-- A method that changes its receiver at its end, or returns early with an error.
abbrev pub commit {ℓ} : {S : Type ℓ} → Option GoError → S → S → S × Option GoError
commit none before after = (after, none)
commit (some e) before after = (before, some e)
