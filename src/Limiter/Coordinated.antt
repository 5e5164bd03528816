-- ===== src/Limiter/Coordinated.antt =====
-- labs/scenarios/distributed-rate-limiter/limiter.go: the limiter over a coordinator,
-- and the errors that it takes for an outage.
use works_on_my_whiteboard.Prelude.{
  ◌else_check◌, wrapped, ℕ, zero, suc, Bool, true, false, not, ◌||◌, Option, none, some, ◌==◌,
  if◌then◌else◌, String, Sentinel, GoError, GoErrors, sentinel, message, wrap, joined, nil, cons,
  Result, ok, err,
}
use works_on_my_whiteboard.Prelude.Dict.{string_key}
use works_on_my_whiteboard.Bucket as TokenBucket
use works_on_my_whiteboard.Bucket.{Bucket, Config}
use works_on_my_whiteboard.Limiter.{
  Request, Decision, Env, poll, through, policy_fail_closed, policy_fail_open, validate_request,
  undegraded,
}

abbrev pub is_unavailable : Sentinel → Bool
is_unavailable Sentinel.coordinator_unavailable = true
is_unavailable _ = false

-- context.Canceled or context.DeadlineExceeded
abbrev pub is_context : Sentinel → Bool
is_context Sentinel.canceled = true
is_context Sentinel.deadline_exceeded = true
is_context _ = false

-- errors.Is for one of a set of sentinels: some error of the tree is one of them.
unfoldable mutual
  pub errors_is : (Sentinel → Bool) → GoError → Bool
  errors_is p (sentinel s) = p s
  errors_is p (message m) = false
  errors_is p (wrap m e) = errors_is p e
  errors_is p (joined es) = any_is p es

  pub any_is : (Sentinel → Bool) → GoErrors → Bool
  any_is p nil = false
  any_is p (cons e es) = errors_is p e || any_is p es

abbrev pub maximum_linear_depth : ℕ
maximum_linear_depth = 64

-- The loop of isExclusiveCoordinatorUnavailable, by the rounds that are left.
unfoldable pub exclusive_from : ℕ → GoError → Bool
exclusive_from zero e = false
exclusive_from (suc rounds) (sentinel s) = is_unavailable s
exclusive_from (suc rounds) (message m) = false
exclusive_from (suc rounds) (wrap m e) = exclusive_from rounds e
exclusive_from (suc rounds) (joined es) = false

abbrev pub is_exclusive_coordinator_unavailable : GoError → Bool
is_exclusive_coordinator_unavailable e = exclusive_from maximum_linear_depth e

-- The interface Coordinator: a state and a method.
abbrev pub CoordinatorTake : Type 0 → Type 0
CoordinatorTake S = S → Env → ℕ → String → ℕ → S × Result TokenBucket.Decision

unfoldable pub new_coordinated_limiter {ℓ} : {S : Type ℓ} → Option S → ℕ → Result (S × ℕ)
new_coordinated_limiter none policy = err (message "coordinated limiter coordinator is nil")
new_coordinated_limiter (some coordinator) policy =
    if policy == policy_fail_closed || policy == policy_fail_open
    then ok (coordinator, policy)
    else err (message "unknown outage policy")

-- What Allow makes of the coordinator's answer, with the poll that follows it.
unfoldable pub decide : ℕ → Option GoError → Result TokenBucket.Decision → Result Decision
decide policy (some context_err) result =
    err (wrap "coordinated limiter context unavailable after coordinator take" context_err)
decide policy none (ok decision) = ok (undegraded decision)
decide policy none (err e) =
    if errors_is is_context e
    then err (wrap "coordinator take context failure" e)
    else if not (is_exclusive_coordinator_unavailable e)
    then err (wrap "coordinator take failed" e)
    else if policy == policy_fail_open
    then ok (record {
      allowed = true;
      degraded = true;
      reason = "coordinator-unavailable-fail-open";
      remaining = 0;
      retry_after = 0;
    })
    else ok (record {
      allowed = false;
      degraded = true;
      reason = "coordinator-unavailable-fail-closed";
      remaining = 0;
      retry_after = 0;
    })

-- coordinatedLimiter.Allow over any coordinator: poll 0, the coordinator's polls from 1 on, and the
-- poll after it, whose number is over those.
abbrev pub poll_after_take : ℕ
poll_after_take = 6

unfoldable pub coordinated_allow :
    {S : Type 0} → CoordinatorTake S → ℕ → S → Env → Request → S × Result Decision
coordinated_allow take policy coordinator env request =
    let (coordinator', result) = take coordinator env 1 request.tenant_id request.amount in
    elim (validate_request env request 0
      else_check wrapped "coordinated limiter context unavailable" (poll env 0)) [
        | some e ↦ (coordinator, err e)
        | none ↦ (coordinator', decide policy (poll env poll_after_take) result)
      ]

unfoldable pub coordinated_allow_pointer :
    {S : Type 0} → CoordinatorTake S → ℕ → Option S → Env → Request → Option S × Result Decision
coordinated_allow_pointer take policy l env request =
    through "coordinated limiter is nil"
      (λ coordinator. coordinated_allow take policy coordinator env request) l
