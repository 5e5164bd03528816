-- ===== src/Harness/Runner.antt =====
-- labs/harness/clock.go and runner.go: the run of a specification.
pub mod Schedule
pub mod Play
pub mod Status
use works_on_my_whiteboard.Prelude.{
  ℕ, suc, ◌+◌, ◌*◌, Bool, true, false, not, ◌&&◌, Option, none, some, List, [], ◌∷◌, ◌++◌, map, ltb,
  ◌==◌, if◌then◌else◌, String, GoError, message, wrap, Result, ok, err, u64,
}
use works_on_my_whiteboard.Prelude.Int.{ℤ, pos_part, neg_part, ltb_ℤ}
use works_on_my_whiteboard.Prelude.Text.{is_blank}
use works_on_my_whiteboard.Prelude.Sort.{stable_sort}
use works_on_my_whiteboard.GoTime
use works_on_my_whiteboard.Harness.{Metric, Snapshot, AssertionResult, Diagnostic}
use works_on_my_whiteboard.Harness.Recorder.{Recorder, new_recorder, snapshot}
use works_on_my_whiteboard.Harness.Spec.{Event, Action, Assertion, RunSpec, validate_run_spec}

pub data RunStatus : Type 0 where
  passed failed : RunStatus

pub record RunResult : Type 0 where
  pub status : RunStatus
  pub started_at : ℕ
  pub finished_at : ℕ
  pub events_executed : ℕ
  pub metrics : List Metric
  pub assertions : List AssertionResult
  pub diagnostics : List Diagnostic

-- The manual clock is its reading.
unfoldable pub advance : ℕ → ℕ → Result ℕ
advance now next =
    if ltb next now then err (message "logical clock cannot move backward") else ok next

abbrev pub new_failed_result : ℕ → RunResult
new_failed_result start = record {
  status = RunStatus.failed;
  started_at = start;
  finished_at = start;
  events_executed = 0;
  metrics = [];
  assertions = [];
  diagnostics = [];
}

abbrev pub append_failure : RunResult → String → String → GoError → RunResult × Option GoError
append_failure result event text e = (
  record result {
    diagnostics = result.diagnostics ++ record { event = event; message = text } ∷ [];
  },
  some e,
)

-- The order of the schedule: by the offset, then the phase, then the sequence.
unfoldable pub event_lt : {W : Type 0} → Event W → Event W → Bool
event_lt left right =
    if pos_part left.at == pos_part right.at && neg_part left.at == neg_part right.at
    then if left.phase == right.phase
      then ltb left.sequence right.sequence
      else ltb left.phase right.phase
    else ltb_ℤ left.at right.at

-- What the loop over the events changes.
pub record Progress (W : Type 0) : Type 0 where
  pub world : W
  pub recorder : Recorder
  pub now : ℕ
  pub executed : ℕ

-- The loop goes on, or ends with a diagnostic and an error.
pub data Step (W : Type 0) : Type 0 where
  go_on : Progress W → Step W
  stop : Progress W → String → String → GoError → Step W

abbrev pub and_then : {W : Type 0} → Step W → (Progress W → Step W) → Step W
and_then (go_on p) rest = rest p
and_then (stop p event text e) rest = stop p event text e

module _ {W : Type 0} where
  -- A call of event.Apply, on an action that is not nil; a nil one, which the preflight refuses, would
  -- panic.
  unfoldable pub call : Event W → Progress W → Progress W × Option GoError
  call event p = elim event.apply [
    | none ↦ (p, some (message "nil function"))
    | some action ↦
        let ((world', recorder'), error) = action p.now p.world p.recorder in
        (record p { world = world'; recorder = recorder'; executed = u64 (p.executed + 1) }, error)
  ]

  -- After the action: its error, then a poll of the context.
  unfoldable pub after_call : Option GoError → Event W → Progress W × Option GoError → Step W
  after_call poll event (p, some e) = stop p event.name "action failed" (wrap "event failed" e)
  after_call (some e) event (p, none) =
      stop p event.name "context canceled after event" (wrap "context unavailable after event" e)
  after_call none event (p, none) = go_on p

  unfoldable pub at_time : Option GoError → Event W → Progress W → Result ℕ → Step W
  at_time poll event p (err e) =
      stop p event.name "logical clock advance failed" (wrap "advance clock for event" e)
  at_time poll event p (ok now') = after_call poll event (call event (record p { now = now' }))

  -- One round of the loop, with the answers of ctx.Err() before and after the event.
  unfoldable pub round : Option GoError → Option GoError → ℕ → Event W → Progress W → Step W
  round (some e) after start event p =
      stop p event.name "context canceled before event" (wrap "context unavailable before event" e)
  round none after start event p =
      at_time after event p (advance p.now (GoTime.shift start event.at))

  -- The loop. The polls of the context are numbered from k.
  unfoldable pub run_events : (ℕ → Option GoError) → ℕ → ℕ → List (Event W) → Progress W → Step W
  run_events polls k start [] p = go_on p
  run_events polls k start (event ∷ events) p =
      and_then (round (polls k) (polls (k + 1)) start event p)
        (λ q. run_events polls (k + 2) start events q)

-- The assertions, each on the same snapshot; a nil check, which the preflight refuses, would panic.
abbrev pub check_result : Assertion → Snapshot → Bool × String
check_result assertion s = elim assertion.check [ none ↦ (false, "nil function") | some f ↦ f s ]

unfoldable pub run_assertion : Snapshot → Assertion → AssertionResult
run_assertion s assertion =
    let (holds, text) = check_result assertion s in
    record {
      id = assertion.id;
      passed = holds;
      message = if not holds && is_blank text then "assertion failed" else text;
    }

-- A diagnostic for each assertion that does not hold.
unfoldable pub failures : List AssertionResult → List Diagnostic
failures [] = []
failures (result ∷ results) =
    let rest = failures results in
    if result.passed then rest else record { event = result.id; message = result.message } ∷ rest

-- The end of the run, once all events are executed, by the diagnostics of the assertions.
unfoldable pub verdict : RunResult → List Diagnostic → RunResult × Option GoError
verdict result [] = (record result { status = RunStatus.passed }, none)
verdict result (d ∷ ds) = (
  record result { diagnostics = result.diagnostics ++ d ∷ ds },
  some (message "one or more assertions failed"),
)

unfoldable pub judge : RunResult → List AssertionResult → RunResult × Option GoError
judge result results = verdict (record result { assertions = results }) (failures results)

-- The result with what is known when the loop ends.
abbrev pub at_end : {W : Type 0} → RunResult → Progress W → RunResult
at_end result p = record result {
  finished_at = p.now;
  events_executed = p.executed;
  metrics = (snapshot p.recorder).metrics;
}

unfoldable pub finish :
    {W : Type 0} → RunResult → List Assertion → Step W → RunResult × Option GoError
finish result assertions (stop p event text e) = append_failure (at_end result p) event text e
finish result assertions (go_on p) =
    judge (at_end result p) (map (run_assertion (snapshot p.recorder)) assertions)

abbrev pub first_progress : {W : Type 0} → W → ℕ → Progress W
first_progress world start = record {
  world = world;
  recorder = new_recorder;
  now = start;
  executed = 0;
}

-- The early returns of Run, by the error of the preflight, the context and its first poll.
unfoldable pub enter :
    RunResult
    → Option GoError
    → Option (ℕ → Option GoError)
    → ((ℕ → Option GoError) → RunResult × Option GoError)
    → RunResult × Option GoError
enter result (some e) context rest =
    append_failure result "preflight" "run specification is invalid" (wrap "run preflight failed" e)
enter result none none rest =
    append_failure result "context" "context is nil" (message "run context is nil")
enter result none (some polls) rest = elim (polls 0) [
  | some e ↦
      append_failure result "context" "context canceled before execution"
        (wrap "run context unavailable before execution" e)
  | none ↦ rest polls
]

-- Run, in a world that may hold a random source made from the seed. `polls` are the answers of
-- ctx.Err(), in order, none for a nil context.
unfoldable pub run :
    {W : Type 0} → Option (ℕ → Option GoError) → (ℤ → W) → RunSpec W → RunResult × Option GoError
run context world spec =
    let result = new_failed_result spec.start in
    enter result (validate_run_spec spec) context (λ polls. finish result spec.assertions (
      run_events polls 1 spec.start (stable_sort event_lt spec.events)
        (first_progress (world spec.seed) spec.start)))
