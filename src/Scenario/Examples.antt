-- ===== src/Scenario/Examples.antt =====
-- Runs of labs/scenarios/distributed-rate-limiter/scenario.go at concrete inputs.
use works_on_my_whiteboard.Prelude.{◌≡◌, ◌≢◌, ◌↔◌, ◌⊎◌, none, some, true, err, message, refl}
use works_on_my_whiteboard.Prelude.Int.{pos}
use works_on_my_whiteboard.Prelude.Dict.{str_eq}
use works_on_my_whiteboard.Harness.Runner.{RunStatus}
use works_on_my_whiteboard.Scenario.{
  ScenarioState, validate_decision, implementation_shared_token_bucket,
  implementation_per_node_token_bucket, implementation_shared_fail_closed,
  implementation_shared_fail_open,
}
use works_on_my_whiteboard.Scenario.Specs.{
  first_state, build_global_quota_run_spec, build_outage_policy_run_spec,
}
use works_on_my_whiteboard.Scenario.Passes.{
  alive, status_of, build_global_quota_run_spec_passes, build_outage_policy_run_spec_passes,
}
use works_on_my_whiteboard.Scenario.Checks.{outage_answer, validate_decision_outage}

build_global_quota_run_spec_passes_example :
    ((status_of (build_global_quota_run_spec alive "per-node-token-bucket") ≡ some RunStatus.passed)
      × (("per-node-token-bucket" ≡ implementation_shared_token_bucket)
          ⊎ ("per-node-token-bucket" ≡ implementation_per_node_token_bucket)))
    ⊎ ((build_global_quota_run_spec alive "per-node-token-bucket"
          ≡ err (message "unknown global quota implementation"))
        × ("per-node-token-bucket" ≢ implementation_shared_token_bucket)
        × ("per-node-token-bucket" ≢ implementation_per_node_token_bucket))
build_global_quota_run_spec_passes_example =
    build_global_quota_run_spec_passes "per-node-token-bucket"

build_outage_policy_run_spec_passes_example :
    ((status_of (build_outage_policy_run_spec alive "shared-fail-open") ≡ some RunStatus.passed)
      × (("shared-fail-open" ≡ implementation_shared_fail_closed)
          ⊎ ("shared-fail-open" ≡ implementation_shared_fail_open)))
    ⊎ ((build_outage_policy_run_spec alive "shared-fail-open"
          ≡ err (message "unknown outage policy implementation"))
        × ("shared-fail-open" ≢ implementation_shared_fail_closed)
        × ("shared-fail-open" ≢ implementation_shared_fail_open))
build_outage_policy_run_spec_passes_example = build_outage_policy_run_spec_passes "shared-fail-open"

-- The fail-open implementation in an outage.
abbrev in_outage : ScenarioState
in_outage =
    record (first_state "shared-fail-open" (record { capacity = 2; refill_every = pos 1 })
      (pos 2)) { outage = true }

validate_decision_outage_example : (validate_decision in_outage (outage_answer true) ≡ none) ↔ (
    outage_answer true
    ≡ outage_answer (str_eq in_outage.implementation_id implementation_shared_fail_open))
validate_decision_outage_example = validate_decision_outage in_outage (outage_answer true) refl
