-- ===== src/Experiment/Probe.antt =====
-- labs/primitives/token-bucket/run.go: the probes as actions, and the specification of the run.
use works_on_my_whiteboard.Prelude.{
  ℕ, ◌-◌, ◌*◌, Bool, true, false, not, ◌&&◌, Option, none, some, List, [], ◌∷◌, ltb, ◌==◌,
  if◌then◌else◌, String, GoError, message, wrap, Result, ok, err,
}
use works_on_my_whiteboard.Prelude.Int.{ℤ, pos, pos_part, neg_part, ltb_ℤ}
use works_on_my_whiteboard.Prelude.Dict.{str_eq}
use works_on_my_whiteboard.GoTime.{second, unix_epoch}
use works_on_my_whiteboard.Bucket as TokenBucket
use works_on_my_whiteboard.Bucket.{Config, Decision}
use works_on_my_whiteboard.Bucket.Reference.{new_reference_bucket}
use works_on_my_whiteboard.Harness.{Snapshot}
use works_on_my_whiteboard.Harness.Recorder.{Recorder, recorder_add, recorder_set, value, int64}
use works_on_my_whiteboard.Harness.Spec.{Event, Assertion, RunSpec, phase_request}
use works_on_my_whiteboard.Experiment.{
  Subject, reference, bucket, subject_take, ExperimentState, frozen_probe_decision, same_decision,
  record_probe_outcome, initialize_run_metrics, ◌then_call◌, run_capacity, run_refill_every,
  run_burst_amount, run_unit_amount, probe_initial_burst, probe_immediate_denial,
  probe_pre_boundary_denial, probe_boundary_allowance, probe_multi_interval,
  reference_implementation_id, bucket_implementation_id,
}

abbrev pub Outcome : Type 0
Outcome = (ExperimentState × Recorder) × Option GoError

-- The counts of a decision, and the tokens that remain.
unfoldable pub record_decision : Recorder → Decision → Decision → Recorder × Option GoError
record_decision r got want =
    (if same_decision got want
      then (r, none)
      else recorder_add r "reference.mismatches" "count" (pos 1))
    then_call (λ r1. recorder_add r1 "requests.total" "count" (pos 1))
    then_call (λ r2.
        if got.allowed
        then recorder_add r2 "requests.allowed" "count" (pos 1)
        else recorder_add r2 "requests.denied" "count" (pos 1))
    then_call (λ r3. recorder_set r3 "tokens.remaining" "tokens" (int64 (pos got.remaining)))

-- The rest of a probe: the most tokens seen, and the outcome.
unfoldable pub record_maximum : ExperimentState → Decision → ℕ → Recorder × Option GoError → Outcome
record_maximum s got kind (r, some e) = ((s, r), some e)
record_maximum s got kind (r, none) =
    let (r1, error1) =
      recorder_set r "tokens.max_observed" "tokens" (int64 (pos got.remaining))
      then_call (λ r'. record_probe_outcome r' kind got) in
    let (r2, error2) = record_probe_outcome r kind got in
    if ltb s.max_observed got.remaining
    then ((record s { max_observed = got.remaining }, r1), error1)
    else ((s, r2), error2)

unfoldable pub judge_frozen : Option Decision → ExperimentState → Recorder → ℕ → Decision → Outcome
judge_frozen none s r kind got = ((s, r), some (message "probe kind has no frozen oracle decision"))
judge_frozen (some want) s r kind got = record_maximum s got kind (record_decision r got want)

unfoldable pub judge_probe : ExperimentState → Recorder → ℕ → Result Decision → Outcome
judge_probe s r kind (err e) = ((s, r), some (wrap "subject take" e))
judge_probe s r kind (ok got) = judge_frozen (frozen_probe_decision kind) s r kind got

unfoldable pub after_initialize : ExperimentState → ℕ → ℕ → ℕ → Recorder × Option GoError → Outcome
after_initialize s now amount kind (r, some e) = ((s, r), some e)
after_initialize s now amount kind (r, none) =
    let (subject', result) = subject_take s.subject now amount in
    judge_probe (record s { initialized = true; subject = subject' }) r kind result

unfoldable pub apply_probe : ExperimentState → Recorder → ℕ → ℕ → ℕ → Outcome
apply_probe s r now amount kind =
    after_initialize s now amount kind
      (if not s.initialized then initialize_run_metrics r else (r, none))

-- `poll` is the answer of ctx.Err() at the start of the action.
unfoldable pub new_probe_event : Option GoError → ℕ → ℕ → String → ℕ → ℕ → Event ExperimentState
new_probe_event poll at sequence name amount kind = record {
  at = pos at;
  phase = phase_request;
  sequence = sequence;
  name = name;
  apply =
      some (λ now s r. elim poll [
        | some e ↦ ((s, r), some e)
        | none ↦ apply_probe s r now amount kind
      ]);
}

abbrev pub metric_assertion : String → (Snapshot → Bool) → Assertion
metric_assertion id holds = record {
  id = id;
  check = some (λ s.
      if holds s then (true, "") else (false, "required token bucket invariant was not observed"));
}

abbrev pub eq_ℤ : ℤ → ℤ → Bool
eq_ℤ a b = pos_part a == pos_part b && neg_part a == neg_part b

abbrev pub value_is : Option ℤ → ℤ → Bool
value_is none want = false
value_is (some got) want = eq_ℤ got want

abbrev pub metric_is : Snapshot → String → ℤ → Bool
metric_is s name want = value_is (value s name) want

abbrev pub at_most : Option ℤ → ℤ → Bool
at_most none bound = false
at_most (some maximum) bound = not (ltb_ℤ bound maximum)

unfoldable pub run_assertions : List Assertion
run_assertions =
    metric_assertion "initial-burst-bounded"
      (λ s. metric_is s "probe.initial_burst_allowed" (pos 1))
    ∷ metric_assertion "pre-boundary-denied" (λ s.
      metric_is s "probe.immediate_denied" (pos 1)
      && metric_is s "probe.pre_boundary_denied" (pos 1))
    ∷ metric_assertion "boundary-refills-one" (λ s. metric_is s "probe.boundary_allowed" (pos 1))
    ∷ metric_assertion "capacity-never-exceeded"
        (λ s. at_most (value s "tokens.max_observed") (pos run_capacity))
    ∷ metric_assertion "implementation-matches-reference"
        (λ s. metric_is s "reference.mismatches" (pos 0))
    ∷ []

-- `polls` are the answers of ctx.Err() in the five actions.
unfoldable pub run_events_of : (ℕ → Option GoError) → List (Event ExperimentState)
run_events_of polls =
    new_probe_event (polls 0) 0 0 "consume-initial-capacity" run_burst_amount probe_initial_burst
    ∷ new_probe_event (polls 1) 0 1 "deny-immediate-unit" run_unit_amount probe_immediate_denial
    ∷ new_probe_event (polls 2) (run_refill_every - 1) 2 "deny-pre-boundary-unit" run_unit_amount
        probe_pre_boundary_denial
    ∷ new_probe_event (polls 3) run_refill_every 3 "allow-boundary-unit" run_unit_amount
        probe_boundary_allowance
    ∷ new_probe_event (polls 4) (3 * run_refill_every) 4 "allow-multi-interval-refill"
        (2 * run_unit_amount) probe_multi_interval
    ∷ []

-- The specification, and the state that its actions share; a nil subject is none.
unfoldable pub build_run_spec_with_subject :
    (ℕ → Option GoError)
    → String
    → Option Subject
    → Result (RunSpec ExperimentState × ExperimentState)
build_run_spec_with_subject polls id none =
    if not (str_eq id reference_implementation_id) && not (str_eq id bucket_implementation_id)
    then err (message "unknown token bucket implementation")
    else err (message "token bucket run subject is nil")
build_run_spec_with_subject polls id (some subject) =
    if not (str_eq id reference_implementation_id) && not (str_eq id bucket_implementation_id)
    then err (message "unknown token bucket implementation")
    else ok (
      record {
        lab_id = "token-bucket";
        required_run_id = "burst-and-refill-boundary";
        binding_id = "token-bucket-burst-boundary";
        claim_id = "token-bucket-bounds-burst-and-average-rate";
        implementation_id = id;
        adapter_id = "";
        seed = pos 1;
        start = unix_epoch;
        deadline = pos (4 * second);
        parameters =
            ("capacity", pos run_capacity)
            ∷ ("refill_every_ns", pos run_refill_every)
            ∷ ("burst_amount", pos run_burst_amount)
            ∷ ("unit_amount", pos run_unit_amount)
            ∷ [];
        events = run_events_of polls;
        assertions = run_assertions;
      },
      record { subject = subject; initialized = false; max_observed = run_capacity },
    )

abbrev pub run_config : Config
run_config = record { capacity = run_capacity; refill_every = pos run_refill_every }

abbrev pub built : Result TokenBucket.Bucket → Result Subject
built (ok b) = ok (bucket b)
built (err e) = err (wrap "build token bucket implementation" e)

unfoldable pub build_subject : String → Result Subject
build_subject id =
    if str_eq id reference_implementation_id
    then ok (reference (new_reference_bucket run_config unix_epoch))
    else if str_eq id bucket_implementation_id
    then built (TokenBucket.new run_config unix_epoch)
    else err (message "unknown token bucket implementation")

unfoldable pub build_with :
    (ℕ → Option GoError)
    → String
    → Result Subject
    → Result (RunSpec ExperimentState × ExperimentState)
build_with polls id (err e) = err e
build_with polls id (ok subject) = build_run_spec_with_subject polls id (some subject)

unfoldable pub build_run_spec :
    (ℕ → Option GoError) → String → Result (RunSpec ExperimentState × ExperimentState)
build_run_spec polls id = build_with polls id (build_subject id)
