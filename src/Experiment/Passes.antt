-- ===== src/Experiment/Passes.antt =====
-- labs/primitives/token-bucket/run.go: the runs of the implementations that the program offers.
use works_on_my_whiteboard.Prelude.{
  String, err, message, ◌≢◌, ◌⊎◌, inl, inr, subst, sym, Bool-cases, ◌≡◌, refl, none, some, ℕ, ok,
  Option, GoError, Result,
}
use works_on_my_whiteboard.Prelude.Int.{◌+ℤ◌, ◌-ℤ◌}
use works_on_my_whiteboard.Prelude.Dict.{str_eq, str_eq_iff, string_key, insert, lookup}
use works_on_my_whiteboard.Prelude.Text.{is_blank}
use works_on_my_whiteboard.Prelude.Sort.{stable_sort, insert_sorted, text_lt}
use works_on_my_whiteboard.GoTime
use works_on_my_whiteboard.Bucket as TokenBucket
use works_on_my_whiteboard.Bucket.Reference.{
  new_reference_bucket, reference_take, reference_refilled, reference_spend, reference_wait,
}
use works_on_my_whiteboard.Harness.Recorder.{
  recorder_add, recorder_set, validate_metric_identity, add_refusal, overflows, int64, snapshot,
  value, search_from,
}
use works_on_my_whiteboard.Harness.Spec.{
  RunSpec, validate_run_spec, check_identities, check_events, check_event, check_assertions,
  check_assertion, is_stable_id, logical_event_time_representable,
}
use works_on_my_whiteboard.Harness.Runner.{
  run, enter, finish, run_events, round, at_time, advance, call, after_call, judge, verdict,
  failures, run_assertion, event_lt, RunStatus,
}
use works_on_my_whiteboard.Experiment.{
  subject_take, ExperimentState, initialize_run_metrics, set_metrics, frozen_probe_decision,
  probe_name, probe_passed, record_probe_outcome, record_outcome, reference_implementation_id,
  bucket_implementation_id,
}
use works_on_my_whiteboard.Experiment.Probe.{
  build_run_spec, build_with, judge_frozen, build_subject, build_run_spec_with_subject,
  run_events_of, run_assertions, new_probe_event, apply_probe, after_initialize, judge_probe,
  record_maximum, record_decision,
}

abbrev pub alive : ℕ → Option GoError
alive k = none

-- The status of the run of what BuildRunSpec returns.
unfoldable pub status_of : Result (RunSpec ExperimentState × ExperimentState) → Option RunStatus
status_of (ok (spec, state)) = some (run (some alive) (λ seed. state) spec).0.status
status_of other = none

bucket_passes : status_of (build_run_spec alive bucket_implementation_id) ≡ some RunStatus.passed
unfolding status_of build_run_spec build_with build_subject build_run_spec_with_subject
    run_events_of run_assertions new_probe_event apply_probe after_initialize judge_probe
    judge_frozen record_maximum record_decision subject_take initialize_run_metrics set_metrics
    frozen_probe_decision probe_name probe_passed record_probe_outcome record_outcome run enter
    finish run_events round at_time advance call after_call judge verdict failures run_assertion
    event_lt validate_run_spec check_identities check_events check_event check_assertions
    check_assertion is_stable_id logical_event_time_representable recorder_add recorder_set
    validate_metric_identity add_refusal overflows int64 snapshot value search_from stable_sort
    insert_sorted text_lt is_blank insert lookup ◌+ℤ◌ ◌-ℤ◌ GoTime.add GoTime.sub GoTime.subtract
    GoTime.shift TokenBucket.new TokenBucket.take TokenBucket.observe_locked
    TokenBucket.spend_observed TokenBucket.spend TokenBucket.retry_after
bucket_passes = refl

reference_passes :
    status_of (build_run_spec alive reference_implementation_id) ≡ some RunStatus.passed
unfolding status_of build_run_spec build_with build_subject build_run_spec_with_subject
    run_events_of run_assertions new_probe_event apply_probe after_initialize judge_probe
    judge_frozen record_maximum record_decision subject_take initialize_run_metrics set_metrics
    frozen_probe_decision probe_name probe_passed record_probe_outcome record_outcome run enter
    finish run_events round at_time advance call after_call judge verdict failures run_assertion
    event_lt validate_run_spec check_identities check_events check_event check_assertions
    check_assertion is_stable_id logical_event_time_representable recorder_add recorder_set
    validate_metric_identity add_refusal overflows int64 snapshot value search_from stable_sort
    insert_sorted text_lt is_blank insert lookup ◌+ℤ◌ ◌-ℤ◌ GoTime.add GoTime.sub GoTime.subtract
    GoTime.shift new_reference_bucket reference_take reference_refilled reference_spend
    reference_wait
reference_passes = refl

-- For each implementation identifier, either it is one of the two known ones and the run of the
-- specification that BuildRunSpec returns passes, under a context that is never cancelled, or it is
-- neither and BuildRunSpec returns the error for an unknown implementation.
pub build_run_spec_passes :
    (id : String)
    → ((status_of (build_run_spec alive id) ≡ some RunStatus.passed)
        × ((id ≡ reference_implementation_id) ⊎ (id ≡ bucket_implementation_id)))
      ⊎ ((build_run_spec alive id ≡ err (message "unknown token bucket implementation"))
          × (id ≢ reference_implementation_id)
          × (id ≢ bucket_implementation_id))
unfolding build_run_spec build_with build_subject
build_run_spec_passes id = elim (Bool-cases (str_eq id reference_implementation_id)) [
  | inl one ↦
      let same = (str_eq_iff id reference_implementation_id).0 one in
      inl (
        subst (λ i. status_of (build_run_spec alive i) ≡ some RunStatus.passed) (sym same)
            reference_passes,
        inl same,
      )
  | inr no_reference ↦ elim (Bool-cases (str_eq id bucket_implementation_id)) [
    | inl one ↦
        let same = (str_eq_iff id bucket_implementation_id).0 one in
        inl (
          subst (λ i. status_of (build_run_spec alive i) ≡ some RunStatus.passed) (sym same)
              bucket_passes,
          inr same,
        )
    | inr no_bucket ↦ inr (
      rw (no_reference, no_bucket) refl,
      (λ h. cc ((str_eq_iff id reference_implementation_id).1 h, no_reference)),
      (λ h. cc ((str_eq_iff id bucket_implementation_id).1 h, no_bucket)),
    )
  ]
]
