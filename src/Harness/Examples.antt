-- ===== src/Harness/Examples.antt =====
-- Runs of labs/harness/recorder.go and runner.go at concrete inputs.
use works_on_my_whiteboard.Prelude.{
  ℕ, ◌+◌, ◌-◌, ◌*◌, ◌==◌, ◌<◌, ◌≡◌, ◌↔◌, Bool, true, false, none, some, [], ◌∷◌, refl, arith,
  String, Option, GoError,
}
use mathlib.Core.List.{Perm}
use works_on_my_whiteboard.Prelude.Int.{ℤ, pos, negsuc, ◌+ℤ◌, ◌-ℤ◌}
use works_on_my_whiteboard.Prelude.Dict.{string_key, lookup, insert}
use works_on_my_whiteboard.Prelude.Sort.{stable_sort, insert_sorted, text_lt}
use works_on_my_whiteboard.Prelude.Text.{is_blank}
use works_on_my_whiteboard.GoTime
use works_on_my_whiteboard.GoTime.{second, unix_epoch, time_limit}
use works_on_my_whiteboard.Harness.Recorder.{
  Recorder, recorder_add, recorder_set, snapshot, value, validate_metric_identity, add_refusal,
  overflows, int64, search_from, max_int64,
}
use works_on_my_whiteboard.Harness.Recorder.Readings.{value-snapshot, value_of, IsValid, plus}
use works_on_my_whiteboard.Harness.Recorder.Updates.{
  Updated, recorder_add-Updated, recorder_set-Updated,
}
use works_on_my_whiteboard.Harness.Spec.{
  Event, Assertion, RunSpec, logical_event_time_representable, validate_run_spec, check_identities,
  check_events, check_event, check_assertions, check_assertion, is_stable_id, phase_request,
}
use works_on_my_whiteboard.Harness.Spec.Preflight.{representable_iff}
use works_on_my_whiteboard.Harness.Runner.{
  run, finish, event_lt, new_failed_result, first_progress, RunStatus, enter, run_events, round,
  at_time, advance, call, after_call, judge, verdict, failures, run_assertion,
}
use works_on_my_whiteboard.Harness.Runner.Schedule.{schedule-IsStrict, IsStrict}
use works_on_my_whiteboard.Harness.Runner.Play.{run-play, play}
use works_on_my_whiteboard.Harness.Runner.Status.{run-IsSound, IsSound}

abbrev two_metrics : Recorder
two_metrics = record {
  metrics =
      ("requests", record { name = "requests"; unit = "count"; value = pos 3 })
      ∷ ("denied", record { name = "denied"; unit = "count"; value = negsuc 1 })
      ∷ [];
}

two_metrics-IsValid : IsValid two_metrics
two_metrics-IsValid = ((refl, omega arith), ((refl, omega arith), tt))

value-snapshot_example :
    value (snapshot two_metrics) "requests" ≡ value_of (lookup "requests" two_metrics.metrics)
value-snapshot_example = value-snapshot two_metrics "requests" two_metrics-IsValid

read_requests : value (snapshot two_metrics) "requests" ≡ some (pos 3)
unfolding snapshot value search_from stable_sort insert_sorted text_lt
read_requests = refl

recorder_add-Updated_example :
    Updated two_metrics "denied"
      (plus (value (snapshot two_metrics) "denied") (pos 5))
      (recorder_add two_metrics "denied" "count" (pos 5))
recorder_add-Updated_example =
    recorder_add-Updated two_metrics "denied" "count" (pos 5) two_metrics-IsValid

-- The sum that does not fit is refused.
add_overflow : (recorder_add two_metrics "requests" "count" max_int64).0 ≡ two_metrics
unfolding recorder_add validate_metric_identity is_blank add_refusal overflows lookup ◌-ℤ◌
add_overflow = refl

recorder_set-Updated_example :
    Updated two_metrics "denied" (pos 9) (recorder_set two_metrics "denied" "count" (pos 9))
recorder_set-Updated_example =
    recorder_set-Updated two_metrics "denied" "count" (pos 9) two_metrics-IsValid (omega arith)

representable_iff_example :
    (logical_event_time_representable (time_limit - 1) 1 ≡ true) ↔ (time_limit - 1 + 1 < time_limit)
representable_iff_example = representable_iff (time_limit - 1) 1 (omega arith) (omega arith)

-- Counts a request.
abbrev request_at : ℤ → ℕ → Event Unit
request_at at sequence = record {
  at = at;
  phase = phase_request;
  sequence = sequence;
  name = "request";
  apply = some (λ now world r.
      let (r', error) = recorder_add r "requests" "count" (pos 1) in ((world, r'), error));
}

abbrev is_two : Option ℤ → Bool × String
is_two (some (pos n)) = (n == 2, "count")
is_two other = (false, "no count")

abbrev two_requests : Assertion
two_requests = record { id = "two-requests"; check = some (λ s. is_two (value s "requests")) }

abbrev spec : RunSpec Unit
spec = record {
  lab_id = "lab";
  required_run_id = "run";
  binding_id = "binding";
  claim_id = "claim-1";
  implementation_id = "implementation";
  adapter_id = "";
  seed = pos 1;
  start = unix_epoch;
  deadline = pos (5 * second);
  parameters = [];
  events = request_at (pos (2 * second)) 0 ∷ request_at (pos second) 1 ∷ [];
  assertions = two_requests ∷ [];
}

abbrev alive : ℕ → Option GoError
alive k = none

spec_passes : validate_run_spec spec ≡ none
unfolding validate_run_spec check_identities check_events check_event check_assertions
    check_assertion is_stable_id is_blank logical_event_time_representable GoTime.add
    GoTime.subtract
spec_passes = refl

run-play_example :
    run (some alive) (λ seed. tt) spec
    ≡ finish
        (new_failed_result unix_epoch)
        (two_requests ∷ [])
        (play unix_epoch (stable_sort event_lt spec.events) (first_progress tt unix_epoch))
run-play_example =
    run-play alive (λ seed. tt) spec (λ i. refl) (omega arith) (omega arith) spec_passes

schedule-IsStrict_example :
    Perm (stable_sort event_lt spec.events) spec.events
    × IsStrict (stable_sort event_lt spec.events)
schedule-IsStrict_example = schedule-IsStrict spec (omega arith) (omega arith) spec_passes

run-IsSound_example : IsSound spec.assertions (run (some alive) (λ seed. tt) spec)
run-IsSound_example = run-IsSound (some alive) (λ seed. tt) spec

-- The run passes, two seconds after its start.
run_passes :
    ((run (some alive) (λ seed. tt) spec).0.status ≡ RunStatus.passed)
    × ((run (some alive) (λ seed. tt) spec).0.finished_at ≡ unix_epoch + 2 * second)
unfolding run enter validate_run_spec check_identities check_events check_event check_assertions
    check_assertion is_stable_id is_blank logical_event_time_representable GoTime.add
    GoTime.subtract GoTime.shift finish run_events round at_time advance call after_call judge
    verdict failures run_assertion stable_sort insert_sorted event_lt recorder_add
    validate_metric_identity add_refusal overflows int64 ◌+ℤ◌ ◌-ℤ◌ insert lookup snapshot value
    search_from text_lt
run_passes = (refl, refl)
