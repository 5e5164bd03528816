-- ===== src/Scenario/Specs.antt =====
-- labs/scenarios/distributed-rate-limiter/scenario.go: the two specifications and their assertions.
use works_on_my_whiteboard.Prelude.{
  ℕ, ◌*◌, ◌^◌, Bool, true, false, not, ◌&&◌, Option, none, some, List, [], ◌∷◌, if◌then◌else◌,
  String, GoError, message, Result, ok, err,
}
use works_on_my_whiteboard.Prelude.Int.{ℤ, pos, ◌+ℤ◌}
use works_on_my_whiteboard.Prelude.Dict.{str_eq}
use works_on_my_whiteboard.GoTime.{second, unix_epoch}
use works_on_my_whiteboard.Bucket.{Config}
use works_on_my_whiteboard.Limiter.{Request}
use works_on_my_whiteboard.Harness.{Snapshot}
use works_on_my_whiteboard.Harness.Recorder.{value, int64}
use works_on_my_whiteboard.Harness.Spec.{
  Event, Action, Assertion, RunSpec, phase_fault, phase_request, phase_observe,
}
use works_on_my_whiteboard.Experiment.Probe.{eq_ℤ, value_is}
use works_on_my_whiteboard.Scenario.{
  ScenarioState, request_action, availability_action, observe_action,
  implementation_shared_token_bucket, implementation_per_node_token_bucket,
  implementation_shared_fail_closed, implementation_shared_fail_open,
}

abbrev pub millisecond : ℕ
millisecond = 10 ^ 6

abbrev pub assertion : String → String → (Snapshot → Bool) → Assertion
assertion id text holds = record { id = id; check = some (λ s. (holds s, text)) }

-- A value, or 0 where there is none, as Snapshot.Value returns it.
abbrev pub or_zero : Option ℤ → ℤ
or_zero none = pos 0
or_zero (some z) = z

abbrev pub exists : Option ℤ → Bool
exists none = false
exists (some z) = true

abbrev pub new_all_requests_decided_assertion : ℤ → Assertion
new_all_requests_decided_assertion want_total =
    assertion "all-requests-decided" "total allowed denied errors" (λ s.
      let total = value s "requests.total" in
      let allowed = value s "requests.allowed" in
      let denied = value s "requests.denied" in
      let errors_found = value s "decisions.errors" in
      exists allowed
      && exists denied
      && exists errors_found
      && value_is total want_total
      && eq_ℤ (or_zero total)
          (int64 (int64 (or_zero allowed +ℤ or_zero denied) +ℤ or_zero errors_found)))

abbrev pub new_metric_assertion : String → String → ℤ → Assertion
new_metric_assertion id metric_name want =
    assertion id "got want" (λ s. value_is (value s metric_name) want)

abbrev pub new_outage_decision_assertion : ℤ → ℤ → Assertion
new_outage_decision_assertion want_allowed want_denied =
    assertion "expected-outage-decision" "outage allowed denied" (λ s.
      let outage = value s "requests.outage" in
      let allowed = value s "requests.outage_allowed" in
      let denied = value s "requests.outage_denied" in
      value_is outage (pos 4)
      && value_is allowed want_allowed
      && value_is denied want_denied
      && eq_ℤ (or_zero outage) (int64 (or_zero allowed +ℤ or_zero denied)))

abbrev pub new_availability_assertion : ℤ → ℤ → Assertion
new_availability_assertion want_allowed want_denied =
    assertion "expected-outage-availability" "allowed denied degraded" (λ s.
      value_is (value s "requests.allowed") want_allowed
      && value_is (value s "requests.denied") want_denied
      && value_is (value s "requests.degraded") (pos 4))

abbrev pub event : ℕ → ℕ → ℕ → String → Action ScenarioState → Event ScenarioState
event at phase sequence name apply = record {
  at = pos at;
  phase = phase;
  sequence = sequence;
  name = name;
  apply = some apply;
}

abbrev pub request_from : String → Request
request_from node_id = record { tenant_id = "tenant-1"; node_id = node_id; amount = 1 }

-- The answers of ctx.Err() to the limiter, for each of the requests.
abbrev pub Polls : Type 0
Polls = ℕ → ℕ → Option GoError

abbrev pub quota_request : Polls → ℕ → String → String → Event ScenarioState
quota_request polls sequence node_id name =
    event 0 phase_request sequence name (request_action (polls sequence) (request_from node_id))

abbrev pub first_state : String → Config → ℤ → ScenarioState
first_state id config nominal_limit = record {
  implementation_id = id;
  config = config;
  nominal_limit = nominal_limit;
  initialized = false;
  limiter = none;
  outage = false;
}

-- The four rounds over the nodes a and b, written out, and the observation.
unfoldable pub quota_events : Polls → List (Event ScenarioState)
quota_events polls =
    quota_request polls 0 "a" "request-a-1"
    ∷ quota_request polls 1 "b" "request-b-1"
    ∷ quota_request polls 2 "a" "request-a-2"
    ∷ quota_request polls 3 "b" "request-b-2"
    ∷ quota_request polls 4 "a" "request-a-3"
    ∷ quota_request polls 5 "b" "request-b-3"
    ∷ quota_request polls 6 "a" "request-a-4"
    ∷ quota_request polls 7 "b" "request-b-4"
    ∷ event 0 phase_observe 0 "observe-quota" observe_action
    ∷ []

unfoldable pub build_global_quota_run_spec :
    Polls → String → Result (RunSpec ScenarioState × ScenarioState)
build_global_quota_run_spec polls id =
    let per_node = str_eq id implementation_per_node_token_bucket in
    let config : Config = record { capacity = 4; refill_every = pos (10 * second) } in
    if not (str_eq id implementation_shared_token_bucket) && not per_node
    then err (message "unknown global quota implementation")
    else ok (
      record {
        lab_id = "distributed-rate-limiter";
        required_run_id = "per-node-vs-shared-quota";
        binding_id = "distributed-rate-limiter-global-quota";
        claim_id = "distributed-rate-limiter-per-node-multiplies-global-quota";
        implementation_id = id;
        adapter_id = "";
        seed = pos 1;
        start = unix_epoch;
        deadline = pos (2 * second);
        parameters =
            ("capacity", pos 4)
            ∷ ("refill_every_ns", pos (10 * second))
            ∷ ("tenant_count", pos 1)
            ∷ ("node_count", pos 2)
            ∷ ("requests_per_node", pos 4)
            ∷ ("request_amount", pos 1)
            ∷ [];
        events = quota_events polls;
        assertions =
            new_all_requests_decided_assertion (pos 8)
            ∷ new_metric_assertion "expected-allowed-count" "requests.allowed"
                (if per_node then pos 8 else pos 4)
            ∷ new_metric_assertion "expected-global-quota-overshoot" "quota.overshoot"
                (if per_node then pos 4 else pos 0)
            ∷ new_metric_assertion "no-unexpected-errors" "decisions.errors" (pos 0)
            ∷ [];
      },
      first_state id config (pos 4),
    )

-- A request of the outage run, of the node a.
abbrev pub outage_request : Polls → ℕ → ℕ → String → Event ScenarioState
outage_request polls k at name =
    event at phase_request 0 name (request_action (polls k) (request_from "a"))

unfoldable pub outage_events : Polls → List (Event ScenarioState)
outage_events polls =
    quota_request polls 0 "a" "healthy-request-1"
    ∷ quota_request polls 1 "b" "healthy-request-2"
    ∷ event (100 * millisecond) phase_fault 0 "coordinator-down" (availability_action false)
    ∷ outage_request polls 2 (100 * millisecond) "outage-request-1"
    ∷ outage_request polls 3 (200 * millisecond) "outage-request-2"
    ∷ outage_request polls 4 (300 * millisecond) "outage-request-3"
    ∷ outage_request polls 5 (400 * millisecond) "outage-request-4"
    ∷ event (900 * millisecond) phase_fault 0 "coordinator-up" (availability_action true)
    ∷ event (900 * millisecond) phase_observe 0 "observe-quota" observe_action
    ∷ []

unfoldable pub build_outage_policy_run_spec :
    Polls → String → Result (RunSpec ScenarioState × ScenarioState)
build_outage_policy_run_spec polls id =
    let fail_open = str_eq id implementation_shared_fail_open in
    let config : Config = record { capacity = 2; refill_every = pos (10 * second) } in
    if not (str_eq id implementation_shared_fail_closed) && not fail_open
    then err (message "unknown outage policy implementation")
    else ok (
      record {
        lab_id = "distributed-rate-limiter";
        required_run_id = "coordinator-outage-policy";
        binding_id = "distributed-rate-limiter-outage-policy";
        claim_id = "distributed-rate-limiter-outage-policy-trades-availability-for-quota";
        implementation_id = id;
        adapter_id = "";
        seed = pos 1;
        start = unix_epoch;
        deadline = pos (2 * second);
        parameters =
            ("capacity", pos 2)
            ∷ ("refill_every_ns", pos (10 * second))
            ∷ ("tenant_count", pos 1)
            ∷ ("healthy_request_count", pos 2)
            ∷ ("outage_request_count", pos 4)
            ∷ ("request_amount", pos 1)
            ∷ ("outage_first_request_at_ns", pos (100 * millisecond))
            ∷ ("outage_request_interval_ns", pos (100 * millisecond))
            ∷ [];
        events = outage_events polls;
        assertions =
            new_all_requests_decided_assertion (pos 6)
            ∷ new_outage_decision_assertion (if fail_open then pos 4 else pos 0)
                (if fail_open then pos 0 else pos 4)
            ∷ new_availability_assertion (if fail_open then pos 6 else pos 2)
                (if fail_open then pos 0 else pos 4)
            ∷ new_metric_assertion "expected-quota-overshoot" "quota.overshoot"
                (if fail_open then pos 4 else pos 0)
            ∷ new_metric_assertion "no-unexpected-errors" "decisions.errors" (pos 0)
            ∷ [];
      },
      first_state id config (pos 2),
    )
