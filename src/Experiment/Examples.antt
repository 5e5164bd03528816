-- ===== src/Experiment/Examples.antt =====
-- Runs of labs/primitives/token-bucket/run.go.
use works_on_my_whiteboard.Prelude.{
  err, ok, none, message, ◌≢◌, ◌⊎◌, false, ◌≡◌, refl, some, ◌↔◌, true,
}
use works_on_my_whiteboard.Prelude.Int.{pos, ◌+ℤ◌, ◌-ℤ◌}
use works_on_my_whiteboard.Prelude.Dict.{string_key, insert, lookup}
use works_on_my_whiteboard.Prelude.Text.{is_blank}
use works_on_my_whiteboard.Harness.Runner.{RunStatus}
use works_on_my_whiteboard.Experiment.{
  ExperimentState, frozen_probe_decision, probe_name, probe_passed, reference_implementation_id,
  bucket_implementation_id, probe_immediate_denial, denial, run_refill_every, subject_take,
  allowance, initialize_run_metrics, set_metrics, record_probe_outcome, record_outcome,
  same_decision,
}
use works_on_my_whiteboard.Experiment.Probe.{
  build_run_spec, apply_probe, after_initialize, judge_probe, judge_frozen, record_maximum,
  record_decision,
}
use works_on_my_whiteboard.Experiment.Passes.{build_run_spec_passes, alive, status_of}
use works_on_my_whiteboard.Experiment.Tally.{apply_probe-IsTally, IsTally, counts_before}
use works_on_my_whiteboard.Experiment.{bucket, probe_initial_burst}
use works_on_my_whiteboard.Bucket as TokenBucket
use works_on_my_whiteboard.Bucket.{full}
use works_on_my_whiteboard.GoTime
use works_on_my_whiteboard.GoTime.{second, unix_epoch}
use works_on_my_whiteboard.Harness.Recorder.{
  new_recorder, recorder_add, recorder_set, validate_metric_identity, add_refusal, overflows, int64,
}
use works_on_my_whiteboard.Harness.Spec.{is_stable_id}
use works_on_my_whiteboard.Harness.Recorder.Readings.{IsValid}
use works_on_my_whiteboard.Experiment.Oracle.{probe_passed_iff}

named : probe_name probe_immediate_denial ≡ some "probe.immediate_denied"
unfolding probe_name
named = refl

probe_passed_iff_example :
    (probe_passed probe_immediate_denial (denial run_refill_every) ≡ true)
    ↔ (frozen_probe_decision probe_immediate_denial ≡ some (denial run_refill_every))
probe_passed_iff_example =
    probe_passed_iff probe_immediate_denial "probe.immediate_denied" (denial run_refill_every) named

build_run_spec_passes_example :
    ((status_of (build_run_spec alive "token-bucket") ≡ some RunStatus.passed)
      × (("token-bucket" ≡ reference_implementation_id)
          ⊎ ("token-bucket" ≡ bucket_implementation_id)))
    ⊎ ((build_run_spec alive "token-bucket" ≡ err (message "unknown token bucket implementation"))
        × ("token-bucket" ≢ reference_implementation_id)
        × ("token-bucket" ≢ bucket_implementation_id))
build_run_spec_passes_example = build_run_spec_passes "token-bucket"

-- The state at the start of the run.
abbrev first_state : ExperimentState
first_state = record {
  subject = bucket (full 4 second unix_epoch);
  initialized = false;
  max_observed = 4;
}

-- The first probe takes the whole capacity, as the frozen decision has it.
first_take : (subject_take first_state.subject unix_epoch 4).1 ≡ ok allowance
unfolding subject_take TokenBucket.take TokenBucket.observe_locked TokenBucket.spend_observed
    TokenBucket.spend TokenBucket.retry_after GoTime.sub GoTime.add
first_take = refl

first_frozen : frozen_probe_decision probe_initial_burst ≡ some allowance
unfolding frozen_probe_decision
first_frozen = refl

first_done : (apply_probe first_state new_recorder unix_epoch 4 probe_initial_burst).1 ≡ none
unfolding subject_take TokenBucket.take TokenBucket.observe_locked TokenBucket.spend_observed
    TokenBucket.spend TokenBucket.retry_after GoTime.sub GoTime.add apply_probe after_initialize
    initialize_run_metrics set_metrics recorder_add recorder_set validate_metric_identity
    add_refusal overflows ◌+ℤ◌ ◌-ℤ◌ judge_probe judge_frozen record_maximum record_decision
    record_probe_outcome record_outcome probe_name probe_passed frozen_probe_decision lookup insert
    is_stable_id is_blank int64
first_done = refl

apply_probe-IsTally_example :
    let after = (apply_probe first_state new_recorder unix_epoch 4 probe_initial_burst).0.1 in
    IsValid after
    × IsTally
        (counts_before false new_recorder)
        true
        (same_decision allowance allowance)
        (int64 (pos 0))
        after
apply_probe-IsTally_example =
    apply_probe-IsTally first_state new_recorder unix_epoch 4 probe_initial_burst allowance
      allowance tt first_take first_frozen first_done
