-- ===== src/Scenario/Passes.antt =====
-- labs/scenarios/distributed-rate-limiter/scenario.go: the runs of the implementations that the
-- scenario offers.
use works_on_my_whiteboard.Prelude.{
  String, ◌≡◌, ◌≢◌, ◌⊎◌, inl, inr, refl, sym, subst, none, some, ok, err, message, Option, Result,
  Bool-cases,
}
use works_on_my_whiteboard.Prelude.Int.{◌+ℤ◌, ◌-ℤ◌}
use works_on_my_whiteboard.Prelude.Dict.{str_eq, str_eq_iff, insert, lookup}
use works_on_my_whiteboard.Prelude.Text.{is_blank}
use works_on_my_whiteboard.Prelude.Sort.{stable_sort, insert_sorted, text_lt}
use works_on_my_whiteboard.GoTime
use works_on_my_whiteboard.Bucket as TokenBucket
use works_on_my_whiteboard.Limiter.{
  take_keyed, take_bucket, validate_request, validate_take_input, validate_token_bucket_config,
}
use works_on_my_whiteboard.Limiter.Shared.{
  new_shared_coordinator, shared_take, shared_refusal, availability_take, availability_refusal,
  set_available, new_availability_coordinator,
}
use works_on_my_whiteboard.Limiter.PerNode.{new_per_node_limiter, per_node_allow, per_node_refusal}
use works_on_my_whiteboard.Limiter.Coordinated.{
  coordinated_allow, decide, exclusive_from, errors_is, new_coordinated_limiter,
}
use works_on_my_whiteboard.Harness.Recorder.{
  recorder_add, recorder_set, validate_metric_identity, add_refusal, overflows, int64, snapshot,
  value, search_from,
}
use works_on_my_whiteboard.Harness.Spec.{
  RunSpec, validate_run_spec, check_identities, check_events, check_event, check_assertions,
  check_assertion, is_stable_id, logical_event_time_representable,
}
use works_on_my_whiteboard.Harness.Runner.{
  run, enter, finish, run_events, round, at_time, advance, call, after_call, judge, verdict,
  failures, run_assertion, event_lt, RunStatus,
}
use works_on_my_whiteboard.Experiment.{set_metrics}
use works_on_my_whiteboard.Scenario.{
  ScenarioState, scenario_allow, build_limiter, with_limiter, after_metrics, initialize,
  validate_decision, record_request, validated, decided, request_counted, request_initialized,
  request_action, availability_action, overshoot_of, observe_initialized, observe_action,
  implementation_shared_token_bucket, implementation_per_node_token_bucket,
  implementation_shared_fail_closed, implementation_shared_fail_open,
}
use works_on_my_whiteboard.Scenario.Specs.{
  Polls, quota_events, outage_events, build_global_quota_run_spec, build_outage_policy_run_spec,
}

abbrev pub alive : Polls
alive k i = none

-- The status of the run of a specification, under a context that is never cancelled.
unfoldable pub status_of : Result (RunSpec ScenarioState × ScenarioState) → Option RunStatus
status_of (ok (spec, state)) = some (run (some (alive 0)) (λ seed. state) spec).0.status
status_of other = none

-- Every accepted implementation passes; the definitions that the four runs compute with.
quota_runs :
    (status_of (build_global_quota_run_spec alive implementation_shared_token_bucket)
      ≡ some RunStatus.passed)
    × (status_of (build_global_quota_run_spec alive implementation_per_node_token_bucket)
        ≡ some RunStatus.passed)
    × (status_of (build_outage_policy_run_spec alive implementation_shared_fail_closed)
        ≡ some RunStatus.passed)
    × (status_of (build_outage_policy_run_spec alive implementation_shared_fail_open)
        ≡ some RunStatus.passed)
unfolding status_of quota_events outage_events build_global_quota_run_spec
    build_outage_policy_run_spec scenario_allow build_limiter with_limiter after_metrics initialize
    validate_decision record_request validated decided request_counted request_initialized
    request_action availability_action overshoot_of observe_initialized observe_action set_metrics
    run enter finish run_events round at_time advance call after_call judge verdict failures
    run_assertion event_lt validate_run_spec check_identities check_events check_event
    check_assertions check_assertion is_stable_id logical_event_time_representable recorder_add
    recorder_set validate_metric_identity add_refusal overflows int64 snapshot value search_from
    stable_sort insert_sorted text_lt is_blank insert lookup ◌+ℤ◌ ◌-ℤ◌ GoTime.add GoTime.sub
    GoTime.subtract GoTime.shift TokenBucket.new TokenBucket.take TokenBucket.observe_locked
    TokenBucket.spend_observed TokenBucket.spend TokenBucket.retry_after take_keyed take_bucket
    validate_request validate_take_input validate_token_bucket_config new_shared_coordinator
    shared_take shared_refusal availability_take availability_refusal set_available
    new_availability_coordinator new_per_node_limiter per_node_allow per_node_refusal
    coordinated_allow decide exclusive_from errors_is new_coordinated_limiter
quota_runs = (refl, refl, refl, refl)

-- For each implementation identifier, either it is one of the two of the global quota run and the run
-- of the specification passes, under a context that is never cancelled, or it is neither and the
-- builder returns the error for an unknown implementation.
pub build_global_quota_run_spec_passes :
    (id : String)
    → ((status_of (build_global_quota_run_spec alive id) ≡ some RunStatus.passed)
        × ((id ≡ implementation_shared_token_bucket) ⊎ (id ≡ implementation_per_node_token_bucket)))
      ⊎ ((build_global_quota_run_spec alive id
            ≡ err (message "unknown global quota implementation"))
          × (id ≢ implementation_shared_token_bucket)
          × (id ≢ implementation_per_node_token_bucket))
unfolding build_global_quota_run_spec
build_global_quota_run_spec_passes id =
    elim (Bool-cases (str_eq id implementation_shared_token_bucket)) [
      | inl one ↦
          let same = (str_eq_iff id implementation_shared_token_bucket).0 one in
          inl (
            subst (λ i. status_of (build_global_quota_run_spec alive i) ≡ some RunStatus.passed)
                (sym same) quota_runs.0,
            inl same,
          )
      | inr first ↦ elim (Bool-cases (str_eq id implementation_per_node_token_bucket)) [
        | inl one ↦
            let same = (str_eq_iff id implementation_per_node_token_bucket).0 one in
            inl (
              subst (λ i. status_of (build_global_quota_run_spec alive i) ≡ some RunStatus.passed)
                  (sym same) quota_runs.1,
              inr same,
            )
        | inr second ↦ inr (
          rw (first, second) refl,
          (λ h. cc ((str_eq_iff id implementation_shared_token_bucket).1 h, first)),
          (λ h. cc ((str_eq_iff id implementation_per_node_token_bucket).1 h, second)),
        )
      ]
    ]

-- For each implementation identifier, either it is one of the two of the outage policy run and the run
-- of the specification passes, under a context that is never cancelled, or it is neither and the
-- builder returns the error for an unknown implementation.
pub build_outage_policy_run_spec_passes :
    (id : String)
    → ((status_of (build_outage_policy_run_spec alive id) ≡ some RunStatus.passed)
        × ((id ≡ implementation_shared_fail_closed) ⊎ (id ≡ implementation_shared_fail_open)))
      ⊎ ((build_outage_policy_run_spec alive id
            ≡ err (message "unknown outage policy implementation"))
          × (id ≢ implementation_shared_fail_closed)
          × (id ≢ implementation_shared_fail_open))
unfolding build_outage_policy_run_spec
build_outage_policy_run_spec_passes id =
    elim (Bool-cases (str_eq id implementation_shared_fail_closed)) [
      | inl one ↦
          let same = (str_eq_iff id implementation_shared_fail_closed).0 one in
          inl (
            subst (λ i. status_of (build_outage_policy_run_spec alive i) ≡ some RunStatus.passed)
                (sym same) quota_runs.2,
            inl same,
          )
      | inr first ↦ elim (Bool-cases (str_eq id implementation_shared_fail_open)) [
        | inl one ↦
            let same = (str_eq_iff id implementation_shared_fail_open).0 one in
            inl (
              subst (λ i. status_of (build_outage_policy_run_spec alive i) ≡ some RunStatus.passed)
                  (sym same) quota_runs.3,
              inr same,
            )
        | inr second ↦ inr (
          rw (first, second) refl,
          (λ h. cc ((str_eq_iff id implementation_shared_fail_closed).1 h, first)),
          (λ h. cc ((str_eq_iff id implementation_shared_fail_open).1 h, second)),
        )
      ]
    ]
