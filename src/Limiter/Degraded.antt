-- ===== src/Limiter/Degraded.antt =====
-- labs/scenarios/distributed-rate-limiter/limiter.go: coordinatedLimiter over an AvailabilityCoordinator
-- that is unavailable.
use works_on_my_whiteboard.Prelude.{
  ℕ, ◌≡◌, ◌&&◌, not, refl, true, false, none, Result, ok, err, sentinel, wrap, Sentinel, arith,
  if◌then◌else◌, ◌==◌, ltb, List, [], ◌∷◌, map, All,
}
use works_on_my_whiteboard.Prelude.Text.{is_blank}
use works_on_my_whiteboard.Limiter.{
  Decision, policy_fail_open, poll, is_nil, validate_request, validate_take_input,
}
use works_on_my_whiteboard.Limiter.Nodes.{AllowCall}
use works_on_my_whiteboard.Limiter.Shared.{
  AvailabilityCoordinator, availability_take, availability_refusal, set_available,
}
use works_on_my_whiteboard.Limiter.Coordinated.{
  coordinated_allow, decide, errors_is, exclusive_from, poll_after_take,
}

-- The calls of the limiter, one after the other on one coordinator, with their answers.
abbrev pub limit_all :
    ℕ → AvailabilityCoordinator → List AllowCall → AvailabilityCoordinator × List (Result Decision)
limit_all policy c [] = (c, [])
limit_all policy c (call ∷ calls) =
    let (c', answer) = coordinated_allow availability_take policy c call.env call.request in
    let (last, answers) = limit_all policy c' calls in (last, answer ∷ answers)

-- A call with identifiers whose context is never cancelled.
pub record IsLive (call : AllowCall) : Type 0 where
  pub has_context : is_nil call.env ≡ false
  pub alive : (k : ℕ) → poll call.env k ≡ none
  pub has_tenant : is_blank call.request.tenant_id ≡ false
  pub has_node : is_blank call.request.node_id ≡ false

abbrev pub degraded : ℕ → Decision
degraded policy =
    if policy == policy_fail_open
    then record {
      allowed = true;
      degraded = true;
      reason = "coordinator-unavailable-fail-open";
      remaining = 0;
      retry_after = 0;
    }
    else record {
      allowed = false;
      degraded = true;
      reason = "coordinator-unavailable-fail-closed";
      remaining = 0;
      retry_after = 0;
    }

-- What an outage leaves of the limiter, by the amount alone: no tokens and more than the capacity are
-- errors as ever, under either policy, and the policy answers the rest.
abbrev pub outage_answer : ℕ → ℕ → ℕ → Result Decision
outage_answer policy capacity amount =
    if amount == 0
    then err (sentinel Sentinel.invalid_amount)
    else if not (capacity == 0) && ltb capacity amount
    then err (wrap "coordinator take failed" (sentinel Sentinel.amount_exceeds_capacity))
    else ok (degraded policy)

outage_call :
    (policy : ℕ) (c : AvailabilityCoordinator) (call : AllowCall)
    → IsLive call
    → c.available ≡ false
    → coordinated_allow availability_take policy c call.env call.request
      ≡ (c, outage_answer policy c.config.capacity call.request.amount)
unfolding coordinated_allow decide validate_request validate_take_input availability_take
    availability_refusal exclusive_from errors_is
outage_call policy c call live down = ground (
  arith,
  live.has_context,
  live.has_tenant,
  live.has_node,
  live.alive 0,
  live.alive 1,
  live.alive 2,
  live.alive poll_after_take,
)

outage_calls :
    (policy : ℕ) (c : AvailabilityCoordinator) (calls : List AllowCall)
    → All IsLive calls
    → c.available ≡ false
    → limit_all policy c calls
      ≡ (c, map (λ call. outage_answer policy c.config.capacity call.request.amount) calls)
outage_calls policy c [] live down = refl
outage_calls policy c (call ∷ calls) live down =
    rw (outage_call policy c call live.0 down, outage_calls policy c calls live.1 down) refl

-- Calls of the limiter during an outage, with tenants, nodes and contexts that stay alive: after them the
-- coordinator, made available again, is as if there had been no outage and no call. Each call for
-- between one token and the capacity is answered, as degraded and with nothing remaining, by the policy,
-- which grants it exactly under fail-open; a call for no tokens or, where the capacity is not zero, for
-- more than it gets the error of its amount, under fail-open too.
pub limit_all-outage_answer :
    (policy : ℕ) (c : AvailabilityCoordinator) (calls : List AllowCall)
    → All IsLive calls
    → let (last, answers) = limit_all policy (set_available c false) calls in
      (set_available last true ≡ set_available c true)
      × (answers ≡ map (λ call. outage_answer policy c.config.capacity call.request.amount) calls)
unfolding set_available
limit_all-outage_answer policy c calls live =
    rw (outage_calls policy (record c { available = false }) calls live refl) (refl, refl)
