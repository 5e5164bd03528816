-- ===== src/Limiter/Shared.antt =====
-- labs/scenarios/distributed-rate-limiter/limiter.go: the coordinator that all nodes
-- share, and the one that can be made unavailable.
use works_on_my_whiteboard.Prelude.{
  check, ◌else_check◌, wrapped, ℕ, ◌+◌, Bool, true, not, Option, none, some, List, [],
  if◌then◌else◌, String, Sentinel, GoError, sentinel, message, Result, ok, err,
}
use works_on_my_whiteboard.Prelude.Dict.{string_key}
use works_on_my_whiteboard.Bucket as TokenBucket
use works_on_my_whiteboard.Bucket.{Bucket, Config}
use works_on_my_whiteboard.Limiter.{
  Env, poll, through, validate_take_input, validate_token_bucket_config, take_keyed,
}

-- `initialized`: the clock and the map are not nil.
pub record SharedCoordinator : Type 0 where
  pub initialized : Bool
  pub config : Config
  pub buckets : List (String × Bucket)

unfoldable pub new_shared_coordinator : Bool → Config → Result SharedCoordinator
new_shared_coordinator has_clock config =
    elim (check (not has_clock) (message "shared coordinator clock is nil")
      else_check wrapped "shared coordinator config" (validate_token_bucket_config config)) [
        | some e ↦ err e
        | none ↦ ok (record { initialized = true; config = config; buckets = [] })
      ]

-- The early returns of SharedCoordinator.Take; its polls are k, k + 1 and k + 2.
unfoldable pub shared_refusal : Config → Env → ℕ → String → ℕ → Option GoError
shared_refusal config env k tenant_id amount =
    validate_take_input env tenant_id amount config.capacity
    else_check wrapped "shared coordinator context unavailable" (poll env k)
    else_check wrapped "shared coordinator context unavailable before mutation" (poll env (k + 1))
    else_check wrapped "shared coordinator context unavailable before mutation" (poll env (k + 2))

unfoldable pub shared_take :
    SharedCoordinator → Env → ℕ → String → ℕ → SharedCoordinator × Result TokenBucket.Decision
shared_take c env k tenant_id amount =
    let (buckets', result) =
      take_keyed "create shared tenant bucket" "take shared tenant token" c.config c.buckets
        tenant_id env.now amount in
    elim (shared_refusal c.config env k tenant_id amount) [
      | some e ↦ (c, err e)
      | none ↦ (record c { buckets = buckets' }, result)
    ]

-- The coordinator owns its delegate: nothing else in the program holds it.
pub record AvailabilityCoordinator : Type 0 where
  pub delegate : SharedCoordinator
  pub config : Config
  pub available : Bool

unfoldable pub new_availability_coordinator :
    Option SharedCoordinator → Result AvailabilityCoordinator
new_availability_coordinator none = err (message "availability coordinator delegate is nil")
new_availability_coordinator (some delegate) =
    if not delegate.initialized
    then err (message "availability coordinator delegate is not initialized")
    else ok (record { delegate = delegate; config = delegate.config; available = true })

unfoldable pub set_available : AvailabilityCoordinator → Bool → AvailabilityCoordinator
set_available c available = record c { available = available }

-- The early returns of AvailabilityCoordinator.Take; its polls are k and k + 1.
unfoldable pub availability_refusal :
    AvailabilityCoordinator → Env → ℕ → String → ℕ → Option GoError
availability_refusal c env k tenant_id amount =
    validate_take_input env tenant_id amount c.config.capacity
    else_check wrapped "availability coordinator context unavailable" (poll env k)
    else_check wrapped "availability coordinator context unavailable before delegation"
        (poll env (k + 1))
    else_check check (not c.available) (sentinel Sentinel.coordinator_unavailable)

unfoldable pub availability_take :
    AvailabilityCoordinator
    → Env
    → ℕ
    → String
    → ℕ
    → AvailabilityCoordinator × Result TokenBucket.Decision
availability_take c env k tenant_id amount =
    let (delegate', result) = shared_take c.delegate env (k + 2) tenant_id amount in
    elim (availability_refusal c env k tenant_id amount) [
      | some e ↦ (c, err e)
      | none ↦ (record c { delegate = delegate' }, result)
    ]

unfoldable pub shared_take_pointer :
    Option SharedCoordinator
    → Env
    → ℕ
    → String
    → ℕ
    → Option SharedCoordinator × Result TokenBucket.Decision
shared_take_pointer c env k tenant_id amount =
    through "shared coordinator is nil" (λ c'. shared_take c' env k tenant_id amount) c

unfoldable pub availability_take_pointer :
    Option AvailabilityCoordinator
    → Env
    → ℕ
    → String
    → ℕ
    → Option AvailabilityCoordinator × Result TokenBucket.Decision
availability_take_pointer c env k tenant_id amount =
    through "availability coordinator is nil" (λ c'. availability_take c' env k tenant_id amount) c

-- SetAvailable through a pointer does nothing on a nil one.
unfoldable pub set_available_pointer :
    Option AvailabilityCoordinator → Bool → Option AvailabilityCoordinator
set_available_pointer none available = none
set_available_pointer (some c) available = some (set_available c available)
