-- ===== src/Limiter/Examples.antt =====
-- Runs of labs/scenarios/distributed-rate-limiter/limiter.go at concrete inputs.
use works_on_my_whiteboard.Prelude.{
  ℕ, ◌+◌, ◌-◌, ◌*◌, ◌/◌, ◌≤◌, ◌<◌, ◌≡◌, ◌↔◌, refl, true, false, none, some, List, [], ◌∷◌, ok, err,
  arith, String, Sentinel, sentinel, wrap, map, All,
}
use works_on_my_whiteboard.Prelude.Int.{pos}
use works_on_my_whiteboard.Prelude.Dict.{lookup, insert}
use works_on_my_whiteboard.Prelude.Text.{is_blank}
use works_on_my_whiteboard.GoTime
use works_on_my_whiteboard.GoTime.{second, unix_epoch}
use works_on_my_whiteboard.Bucket as TokenBucket
use works_on_my_whiteboard.Bucket.{Config}
use works_on_my_whiteboard.Bucket.Rate.{total}
use works_on_my_whiteboard.Limiter.{
  Env, Request, Decision, policy_fail_open, take_keyed, take_bucket, validate_request,
  validate_take_input, validate_token_bucket_config,
}
use works_on_my_whiteboard.Limiter.Shared.{
  SharedCoordinator, AvailabilityCoordinator, new_shared_coordinator, shared_take, shared_refusal,
  availability_take, availability_refusal, set_available,
}
use works_on_my_whiteboard.Limiter.PerNode.{
  PerNodeLimiter, new_per_node_limiter, per_node_allow, per_node_refusal,
}
use works_on_my_whiteboard.Limiter.Coordinated.{
  coordinated_allow, decide, is_exclusive_coordinator_unavailable, exclusive_from, errors_is,
}
use works_on_my_whiteboard.Limiter.Quota.{TakeCall, shared_step, shared_quota}
use works_on_my_whiteboard.Limiter.Degraded.{
  limit_all, IsLive, outage_answer, limit_all-outage_answer,
}
use works_on_my_whiteboard.Limiter.Nodes.{AllowCall, per_node_step}
use works_on_my_whiteboard.Limiter.Multiplied.{of_tenant, per_node_quota}
use works_on_my_whiteboard.Limiter.Outage.{
  Grant, coordinated-Grant, exclusive_iff, IsOutage, outage_round_trip, availability_step,
  OutageCall,
}

abbrev config : Config
config = record { capacity = 4; refill_every = pos (10 * second) }

-- A context that is never cancelled.
abbrev alive : Env
alive = record { polls = some (λ k. none); now = unix_epoch }

abbrev empty : SharedCoordinator
empty = record { initialized = true; config = config; buckets = [] }

new_shared_coordinator-config : new_shared_coordinator true config ≡ ok empty
unfolding new_shared_coordinator validate_token_bucket_config TokenBucket.new
new_shared_coordinator-config = refl

abbrev no_nodes : PerNodeLimiter
no_nodes = record { config = config; buckets = [] }

new_per_node_limiter-config : new_per_node_limiter true config ≡ ok no_nodes
unfolding new_per_node_limiter validate_token_bucket_config TokenBucket.new
new_per_node_limiter-config = refl

abbrev two_calls : List TakeCall
two_calls =
    record { env = alive; first_poll = 1; tenant_id = "tenant-1"; amount = 3 }
    ∷ record { env = alive; first_poll = 1; tenant_id = "tenant-1"; amount = 3 }
    ∷ []

-- The second call does not get what the first one took.
two_calls-total : (total (shared_step "tenant-1") empty two_calls).1 ≡ 3
unfolding total shared_take shared_refusal validate_take_input is_blank take_keyed take_bucket
    lookup insert TokenBucket.new TokenBucket.take TokenBucket.observe_locked
    TokenBucket.spend_observed TokenBucket.spend TokenBucket.retry_after GoTime.sub GoTime.add
two_calls-total = refl

shared_quota_example :
    (total (shared_step "tenant-1") empty two_calls).1
    ≤ 4 + (unix_epoch + 25 * second - unix_epoch) / (10 * second)
shared_quota_example =
    shared_quota config "tenant-1" two_calls unix_epoch (unix_epoch + 25 * second) (omega arith)
      new_shared_coordinator-config (omega arith) (omega arith)

abbrev from_node : String → Request
from_node node = record { tenant_id = "tenant-1"; node_id = node; amount = 4 }

abbrev two_nodes : List AllowCall
two_nodes =
    record { env = alive; request = from_node "a" }
    ∷ record { env = alive; request = from_node "b" }
    ∷ []

-- Two nodes get the capacity twice.
two_nodes-total : (total (per_node_step (of_tenant "tenant-1")) no_nodes two_nodes).1 ≡ 8
unfolding total per_node_allow per_node_refusal validate_request is_blank take_keyed take_bucket
    lookup insert TokenBucket.new TokenBucket.take TokenBucket.observe_locked
    TokenBucket.spend_observed TokenBucket.spend TokenBucket.retry_after GoTime.sub GoTime.add
two_nodes-total = refl

per_node_quota_example :
    (total (per_node_step (of_tenant "tenant-1")) no_nodes two_nodes).1
    ≤ 2 * (4 + (unix_epoch - unix_epoch) / (10 * second))
per_node_quota_example =
    per_node_quota config "tenant-1" ("a" ∷ "b" ∷ []) two_nodes unix_epoch unix_epoch (omega arith)
      new_per_node_limiter-config (omega arith) (omega arith) (refl, (refl, tt))

abbrev down : AvailabilityCoordinator
down = record { delegate = empty; config = config; available = false }

down_refuses :
    (availability_take down alive 1 "tenant-1" 4).1
    ≡ err (sentinel Sentinel.coordinator_unavailable)
unfolding availability_take availability_refusal validate_take_input is_blank
down_refuses = refl

abbrev degraded_grant : Decision
degraded_grant = record {
  allowed = true;
  degraded = true;
  reason = "coordinator-unavailable-fail-open";
  remaining = 0;
  retry_after = 0;
}

fail_open :
    (coordinated_allow availability_take policy_fail_open down alive (from_node "a")).1
    ≡ ok degraded_grant
unfolding coordinated_allow decide validate_request is_blank availability_take availability_refusal
    validate_take_input exclusive_from errors_is
fail_open = refl

coordinated-Grant_example :
    Grant policy_fail_open (availability_take down alive 1 "tenant-1" 4).1 degraded_grant
coordinated-Grant_example =
    coordinated-Grant availability_take policy_fail_open down alive (from_node "a") fail_open refl

-- A request of the whole capacity, and one of more than it.
abbrev outage_calls : List AllowCall
outage_calls =
    record { env = alive; request = from_node "a" }
    ∷ record { env = alive; request = record { tenant_id = "tenant-1"; node_id = "b"; amount = 5 } }
    ∷ []

alive-IsLive :
    (request : Request)
    → is_blank request.tenant_id ≡ false
    → is_blank request.node_id ≡ false
    → IsLive (record { env = alive; request = request })
alive-IsLive request t n = record {
  has_context = refl;
  alive = λ k. refl;
  has_tenant = t;
  has_node = n;
}

outage_calls-IsLive : All IsLive outage_calls
unfolding is_blank
outage_calls-IsLive = (alive-IsLive _ refl refl, (alive-IsLive _ refl refl, tt))

limit_all-outage_answer_example :
    (set_available (limit_all policy_fail_open (set_available down false) outage_calls).0 true
      ≡ set_available down true)
    × ((limit_all policy_fail_open (set_available down false) outage_calls).1
        ≡ map
            (λ call. outage_answer policy_fail_open down.config.capacity call.request.amount)
            outage_calls)
limit_all-outage_answer_example =
    limit_all-outage_answer policy_fail_open down outage_calls outage_calls-IsLive

exclusive_iff_example :
    (is_exclusive_coordinator_unavailable (wrap "call" (sentinel Sentinel.coordinator_unavailable))
      ≡ true)
    ↔ ((depth : ℕ) × IsOutage depth (wrap "call" (sentinel Sentinel.coordinator_unavailable))
        × (depth < 64))
exclusive_iff_example = exclusive_iff (wrap "call" (sentinel Sentinel.coordinator_unavailable))

abbrev during : List OutageCall
during = record { env = alive; first_poll = 1; tenant_id = "tenant-1"; amount = 4 } ∷ []

outage_round_trip_example :
    let (c', out) = total availability_step (set_available down false) during in
    (set_available c' true ≡ set_available down true) × (out ≡ 0)
outage_round_trip_example = outage_round_trip down during
