-- ===== src/Scenario.antt =====
-- labs/scenarios/distributed-rate-limiter/scenario.go: the state and the actions of the scenario.
pub mod Specs
pub mod Passes
pub mod Checks
mod Examples
use works_on_my_whiteboard.Prelude.{
  ℕ, Bool, true, false, not, ◌&&◌, ◌||◌, Option, none, some, List, [], ◌∷◌, map, ltb, ◌==◌,
  if◌then◌else◌, String, GoError, message, wrap, Result, ok, err,
}
use works_on_my_whiteboard.Prelude.Int.{ℤ, pos, ◌-ℤ◌, ltb_ℤ}
use works_on_my_whiteboard.Prelude.Dict.{str_eq}
use works_on_my_whiteboard.Bucket.{Config}
use works_on_my_whiteboard.Limiter.{Request, Decision, Env, policy_fail_closed, policy_fail_open}
use works_on_my_whiteboard.Limiter.Shared.{
  SharedCoordinator, AvailabilityCoordinator, new_shared_coordinator, new_availability_coordinator,
  shared_take, availability_take, set_available,
}
use works_on_my_whiteboard.Limiter.Coordinated.{new_coordinated_limiter, coordinated_allow}
use works_on_my_whiteboard.Limiter.PerNode.{PerNodeLimiter, new_per_node_limiter, per_node_allow}
use works_on_my_whiteboard.Harness.{Metric}
use works_on_my_whiteboard.Harness.Recorder.{
  Recorder, recorder_add, recorder_set, snapshot, value, int64,
}
use works_on_my_whiteboard.Experiment.{◌then_call◌, labelled, set_metrics}

abbrev pub implementation_shared_token_bucket : String
implementation_shared_token_bucket = "shared-token-bucket"

abbrev pub implementation_per_node_token_bucket : String
implementation_per_node_token_bucket = "per-node-token-bucket"

abbrev pub implementation_shared_fail_closed : String
implementation_shared_fail_closed = "shared-fail-closed"

abbrev pub implementation_shared_fail_open : String
implementation_shared_fail_open = "shared-fail-open"

abbrev pub zero_metric : String → String → Metric
zero_metric name unit = record { name = name; unit = unit; value = pos 0 }

abbrev pub scenario_metrics : List Metric
scenario_metrics =
    zero_metric "requests.total" "requests"
    ∷ zero_metric "requests.allowed" "requests"
    ∷ zero_metric "requests.denied" "requests"
    ∷ zero_metric "requests.outage" "requests"
    ∷ zero_metric "requests.outage_allowed" "requests"
    ∷ zero_metric "requests.outage_denied" "requests"
    ∷ zero_metric "requests.degraded" "requests"
    ∷ zero_metric "decisions.errors" "decisions"
    ∷ zero_metric "quota.nominal_limit" "tokens"
    ∷ zero_metric "quota.overshoot" "tokens"
    ∷ []

-- The limiters that the scenario builds, with the policy of a coordinated one. The availability
-- coordinator of the state is the coordinator of its limiter, so `guarded` holds it for both.
pub data ScenarioLimiter : Type 0 where
  per_node : PerNodeLimiter → ScenarioLimiter
  shared : SharedCoordinator → ℕ → ScenarioLimiter
  guarded : AvailabilityCoordinator → ℕ → ScenarioLimiter

unfoldable pub scenario_allow : ScenarioLimiter → Env → Request → ScenarioLimiter × Result Decision
scenario_allow (per_node l) env request =
    let (l', result) = per_node_allow l env request in (per_node l', result)
scenario_allow (shared c policy) env request =
    let (c', result) = coordinated_allow shared_take policy c env request in
    (shared c' policy, result)
scenario_allow (guarded c policy) env request =
    let (c', result) = coordinated_allow availability_take policy c env request in
    (guarded c' policy, result)

-- `limiter` is nil until the state is initialized.
pub record ScenarioState : Type 0 where
  pub implementation_id : String
  pub config : Config
  pub nominal_limit : ℤ
  pub initialized : Bool
  pub limiter : Option ScenarioLimiter
  pub outage : Bool

-- The next constructor, unless the one before it failed.
abbrev pub create : {A B : Type 0} → String → Result A → (A → Result B) → Result B
create label (err e) next = err (wrap label e)
create label (ok a) next = next a

unfoldable pub build_limiter : String → Config → Result ScenarioLimiter
build_limiter id config =
    if str_eq id implementation_per_node_token_bucket
    then create "create per-node limiter" (new_per_node_limiter true config) (λ l. ok (per_node l))
    else if str_eq id implementation_shared_token_bucket
    then create "create shared coordinator" (new_shared_coordinator true config) (λ c.
      create "create shared limiter" (new_coordinated_limiter (some c) policy_fail_closed)
        (λ l. ok (shared l.0 l.1)))
    else if str_eq id implementation_shared_fail_closed || str_eq id implementation_shared_fail_open
    then create "create shared coordinator" (new_shared_coordinator true config) (λ c.
      create "create availability coordinator" (new_availability_coordinator (some c)) (λ a.
        create "create outage limiter"
          (new_coordinated_limiter (some a) (
            if str_eq id implementation_shared_fail_open
            then policy_fail_open
            else policy_fail_closed))
          (λ l. ok (guarded l.0 l.1))))
    else err (message "unknown scenario implementation")

abbrev pub Outcome : Type 0
Outcome = (ScenarioState × Recorder) × Option GoError

unfoldable pub with_limiter : ScenarioState → Recorder → Result ScenarioLimiter → Outcome
with_limiter s r (err e) = ((s, r), some e)
with_limiter s r (ok l) = ((record s { limiter = some l; initialized = true }, r), none)

unfoldable pub after_metrics : ScenarioState → Recorder × Option GoError → Outcome
after_metrics s (r, some e) = ((s, r), some e)
after_metrics s (r, none) = with_limiter s r (build_limiter s.implementation_id s.config)

-- The runner gives every action a whole runtime, so the test for an incomplete one is left out.
unfoldable pub initialize : ScenarioState → Recorder → Outcome
initialize s r =
    let fresh = after_metrics s (
      set_metrics scenario_metrics r then_call (λ r'.
        labelled "set nominal quota"
          (recorder_set r' "quota.nominal_limit" "tokens" s.nominal_limit))) in
    if s.initialized then ((s, r), none) else fresh

unfoldable pub validate_decision : ScenarioState → Decision → Option GoError
validate_decision s decision =
    let fail_open = str_eq s.implementation_id implementation_shared_fail_open in
    let want_reason =
      if fail_open
      then "coordinator-unavailable-fail-open"
      else "coordinator-unavailable-fail-closed" in
    let wrong =
      (if decision.allowed then not fail_open else fail_open)
      || not decision.degraded
      || not (str_eq decision.reason want_reason)
      || not (decision.remaining == 0)
      || not (decision.retry_after == 0) in
    if not s.outage
    then if decision.degraded || not (str_eq decision.reason "")
      then some (message "healthy decision unexpectedly degraded")
      else none
    else if wrong
    then some (message "outage decision does not match policy")
    else none

-- Counts one, where a condition holds.
abbrev pub count_if : Bool → String → Recorder → Recorder × Option GoError
count_if true name r = recorder_add r name "requests" (pos 1)
count_if false name r = (r, none)

unfoldable pub record_request : Bool → Decision → Recorder → Recorder × Option GoError
record_request outage decision r =
    (if decision.allowed
      then count_if true "requests.allowed" r
        then_call (λ r'. count_if outage "requests.outage_allowed" r')
      else count_if true "requests.denied" r
        then_call (λ r'. count_if outage "requests.outage_denied" r'))
    then_call (λ r'. count_if decision.degraded "requests.degraded" r')

unfoldable pub validated : ScenarioState → Recorder → Decision → Option GoError → Outcome
validated s r decision (some e) = ((s, r), some e)
validated s r decision none =
    let (r', error) = record_request s.outage decision r in ((s, r'), error)

unfoldable pub decided : ScenarioState → Recorder → Result Decision → Outcome
decided s r (ok decision) = validated s r decision (validate_decision s decision)
decided s r (err e) =
    let (r', error) =
      recorder_add r "decisions.errors" "decisions" (pos 1)
      then_call (λ r2. (r2, some (wrap "limiter decision" e))) in
    ((s, r'), error)

-- After the counts of requests; a nil limiter, which an initialized state never has, would panic.
unfoldable pub request_counted : ScenarioState → Env → Request → Recorder × Option GoError → Outcome
request_counted s env request (r, some e) = ((s, r), some e)
request_counted s env request (r, none) = elim s.limiter [
  | none ↦ ((s, r), some (message "nil limiter"))
  | some l ↦
      let (l', result) = scenario_allow l env request in
      decided (record s { limiter = some l' }) r result
]

unfoldable pub request_initialized : Env → Request → Outcome → Outcome
request_initialized env request ((s, r), some e) = ((s, r), some e)
request_initialized env request ((s, r), none) =
    request_counted s env request
      (count_if true "requests.total" r then_call (λ r'. count_if s.outage "requests.outage" r'))

-- `polls` are the answers of ctx.Err() to the limiter.
unfoldable pub request_action :
    (ℕ → Option GoError) → Request → ℕ → ScenarioState → Recorder → Outcome
request_action polls request now s r =
    request_initialized (record { polls = some polls; now = now }) request (initialize s r)

unfoldable pub availability_action : Bool → ℕ → ScenarioState → Recorder → Outcome
availability_action available now s r =
    if not s.initialized
    then ((s, r), some (message "outage state is not initialized"))
    else elim s.limiter [
      | some (guarded c policy) ↦ (
        (
          record s {
            limiter = some (guarded (set_available c available) policy);
            outage = not available;
          },
          r,
        ),
        none,
      )
      | _ ↦ ((s, r), some (message "outage state is not initialized"))
    ]

abbrev pub not_negative : ℤ → ℤ
not_negative overshoot = if ltb_ℤ overshoot (pos 0) then pos 0 else overshoot

unfoldable pub overshoot_of : ScenarioState → Recorder → Option ℤ → Outcome
overshoot_of s r none = ((s, r), some (message "requests.allowed metric is absent"))
overshoot_of s r (some allowed) =
    let (r', error) = labelled "set quota overshoot" (
      recorder_set r "quota.overshoot" "tokens"
        (not_negative (int64 (allowed -ℤ s.nominal_limit)))) in
    ((s, r'), error)

unfoldable pub observe_initialized : Outcome → Outcome
observe_initialized ((s, r), some e) = ((s, r), some e)
observe_initialized ((s, r), none) = overshoot_of s r (value (snapshot r) "requests.allowed")

unfoldable pub observe_action : ℕ → ScenarioState → Recorder → Outcome
observe_action now s r = observe_initialized (initialize s r)
