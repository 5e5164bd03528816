-- ===== src/Bucket/Examples.antt =====
-- Runs of labs/primitives/token-bucket/bucket.go and run.go at concrete inputs.
use works_on_my_whiteboard.Prelude.{
  ℕ, ◌+◌, ◌-◌, ◌*◌, ◌/◌, ◌≤◌, min, ◌≡◌, ap, refl, true, false, leb, [], ◌∷◌, ok, arith,
}
use works_on_my_whiteboard.Prelude.Int.{pos}
use works_on_my_whiteboard.GoTime.{second, unix_epoch, max_duration}
use works_on_my_whiteboard.Bucket.{
  Bucket, Config, Decision, new, full, take, available, spend_observed, spend, observe_locked,
  retry_after,
}
use works_on_my_whiteboard.GoTime
use works_on_my_whiteboard.Bucket.Observe.{IsValid}
use works_on_my_whiteboard.Bucket.Take.{take-IsValid, available-IsValid, new-IsValid}
use works_on_my_whiteboard.Bucket.Spec.{ideal_take, take-ideal_take}
use works_on_my_whiteboard.Bucket.Retry.{retry_after-eq-min, retry_after_exact}
use works_on_my_whiteboard.Bucket.Rate.{take_all, take_all_rate, new-take_all_rate}
use works_on_my_whiteboard.Bucket.Compose.{available_invisible}
use works_on_my_whiteboard.Bucket.Reference.{as_reference, reference_take, reference_take_agrees}

-- The bucket of the experiment.
abbrev epoch : ℕ
epoch = unix_epoch

abbrev config : Config
config = record { capacity = 4; refill_every = pos second }

abbrev fresh : Bucket
fresh = full 4 second epoch

abbrev drained : Bucket
drained = record fresh { available = 0 }

new-fresh : new config epoch ≡ ok fresh
unfolding new
new-fresh = refl

fresh-IsValid : IsValid fresh
fresh-IsValid = omega arith

drained-IsValid : IsValid drained
drained-IsValid = omega arith

-- The burst, then a denial with a wait of one interval.
burst :
    take fresh epoch 4 ≡ (drained, ok (record { allowed = true; remaining = 0; retry_after = 0 }))
unfolding take observe_locked spend_observed spend GoTime.sub GoTime.add
burst = refl

abbrev denied : Decision
denied = record { allowed = false; remaining = 0; retry_after = second }

denial : take drained epoch 1 ≡ (drained, ok denied)
unfolding take observe_locked spend_observed spend retry_after GoTime.sub GoTime.add
denial = refl

abbrev allowance : Decision
allowance = record { allowed = true; remaining = 0; retry_after = 0 }

later : (take drained (epoch + second) 1).1 ≡ ok allowance
unfolding take observe_locked spend_observed spend retry_after GoTime.sub GoTime.add
later = refl

take-IsValid_example : IsValid (take drained (epoch + 7) 2).0
take-IsValid_example = take-IsValid drained (epoch + 7) 2 drained-IsValid (omega arith)

available-IsValid_example : IsValid (available drained (epoch + 7)).0
available-IsValid_example = available-IsValid drained (epoch + 7) drained-IsValid (omega arith)

new-IsValid_example : IsValid fresh
new-IsValid_example = new-IsValid config epoch (omega arith) (omega arith) new-fresh

take-ideal_take_example : take drained (epoch + 7) 2 ≡ ideal_take drained (epoch + 7) 2
take-ideal_take_example = take-ideal_take drained (epoch + 7) 2 drained-IsValid (omega arith)

retry_after-eq-min_example : retry_after second 7 3 ≡ min max_duration (3 * second - 7)
retry_after-eq-min_example = retry_after-eq-min second 7 3 (omega arith) (omega arith) (omega arith)

-- One interval after the denial the request is allowed.
retry_after_exact_example : allowance.allowed ≡ leb denied.retry_after second
retry_after_exact_example =
    retry_after_exact drained epoch 1 second {d = denied} {d' = allowance} drained-IsValid
      (omega arith) (rw denial (omega arith)) (ap (λ r. r.1) denial) refl (omega arith)
      (rw denial later)

take_all_rate_example :
    (take_all drained ((epoch + 3 * second, 2) ∷ (epoch + 4 * second, 9) ∷ [])).1
    ≤ 0 + (epoch + 4 * second - epoch) / second
take_all_rate_example =
    take_all_rate drained ((epoch + 3 * second, 2) ∷ (epoch + 4 * second, 9) ∷ [])
      (epoch + 4 * second) drained-IsValid (omega arith) (omega arith)

new-take_all_rate_example :
    (take_all fresh ((epoch, 4) ∷ (epoch + 3 * second, 2) ∷ [])).1
    ≤ 4 + (epoch + 3 * second - epoch) / second
new-take_all_rate_example =
    new-take_all_rate config epoch ((epoch, 4) ∷ (epoch + 3 * second, 2) ∷ []) (epoch + 3 * second)
      (omega arith) (omega arith) new-fresh (omega arith) (omega arith)

available_invisible_example :
    (take (available drained (epoch + 5)).0 (epoch + 5 + second) 1
      ≡ take drained (epoch + 5 + second) 1)
    × (available (available drained (epoch + 5)).0 (epoch + 5 + second)
        ≡ available drained (epoch + 5 + second))
available_invisible_example =
    available_invisible drained (epoch + 5) second 1 drained-IsValid (omega arith) (omega arith)
      (omega arith)

reference_take_agrees_example :
    reference_take (as_reference drained) epoch 1
    ≡ (as_reference (take drained epoch 1).0, (take drained epoch 1).1)
reference_take_agrees_example =
    reference_take_agrees drained epoch 1 drained-IsValid (omega arith) (λ e. cc (denial, e))
