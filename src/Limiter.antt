-- ===== src/Limiter.antt =====
-- labs/scenarios/distributed-rate-limiter/limiter.go: the distributed rate limiter.
pub mod Shared
pub mod Coordinated
pub mod PerNode
pub mod Degraded
mod Examples
pub mod Outage
pub mod Multiplied
pub mod Nodes
pub mod Quota
pub mod Stores
use works_on_my_whiteboard.Prelude.{
  check, ◌else_check◌, ℕ, zero, suc, ◌+◌, Bool, true, false, not, ◌&&◌, ◌||◌, Option, none, some,
  List, [], ◌∷◌, ltb, ◌==◌, if◌then◌else◌, String, ◌≡◌, ◌↔◌, arith, Sentinel, GoError, GoErrors,
  sentinel, message, wrap, joined, nil, cons, Result, ok, err, refl,
}
use works_on_my_whiteboard.Prelude.Dict.{Key, str_eq, str_eq_iff, lookup, insert}
use works_on_my_whiteboard.Prelude.Text.{is_blank}
use works_on_my_whiteboard.GoTime.{unix_epoch}
use works_on_my_whiteboard.Bucket as TokenBucket
use works_on_my_whiteboard.Bucket.{Bucket, Config}

pub record Request : Type 0 where
  pub tenant_id : String
  pub node_id : String
  pub amount : ℕ

pub record Decision : Type 0 where
  pub allowed : Bool
  pub degraded : Bool
  pub reason : String
  pub remaining : ℕ
  pub retry_after : ℕ

-- PolicyFailClosed and PolicyFailOpen, of the type uint8.
abbrev pub policy_fail_closed : ℕ
policy_fail_closed = 0

abbrev pub policy_fail_open : ℕ
policy_fail_open = 1

-- What a call sees of its surroundings. `polls` are the answers of ctx.Err(), in the order of the
-- places that ask for it on the longest path through the call; it is none for a nil context. `now` is
-- the reading of the clock.
pub record Env : Type 0 where
  pub polls : Option (ℕ → Option GoError)
  pub now : ℕ

abbrev pub poll : Env → ℕ → Option GoError
poll env k = elim env.polls [ none ↦ none | some answers ↦ answers k ]

abbrev pub is_nil : Env → Bool
is_nil env = elim env.polls [ none ↦ true | some answers ↦ false ]

unfoldable pub validate_take_input : Env → String → ℕ → ℕ → Option GoError
validate_take_input env tenant_id amount capacity =
    check (is_nil env) (message "coordinator context is nil")
    else_check check (is_blank tenant_id) (message "tenant ID must be nonblank")
    else_check check (amount == 0) (sentinel Sentinel.invalid_amount)
    else_check check (not (capacity == 0) && ltb capacity amount)
        (sentinel Sentinel.amount_exceeds_capacity)

unfoldable pub validate_request : Env → Request → ℕ → Option GoError
validate_request env request capacity =
    check (is_nil env) (message "limiter context is nil")
    else_check check (is_blank request.tenant_id) (message "tenant ID must be nonblank")
    else_check check (is_blank request.node_id) (message "node ID must be nonblank")
    else_check check (request.amount == 0) (sentinel Sentinel.invalid_amount)
    else_check check (not (capacity == 0) && ltb capacity request.amount)
        (sentinel Sentinel.amount_exceeds_capacity)

unfoldable pub validate_token_bucket_config : Config → Option GoError
validate_token_bucket_config config = elim (TokenBucket.new config unix_epoch) [
  | ok b ↦ none
  | err e ↦ some e
]

-- The critical section that SharedCoordinator.Take and PerNodeLimiter.Allow share, after their checks:
-- the bucket of the key is looked up, or created at `now`, and asked.
module _ {K : Type 0} ⦃keys : Key K⦄ where
  unfoldable pub take_bucket :
      String
      → List (K × Bucket)
      → K
      → Bucket
      → ℕ
      → ℕ
      → List (K × Bucket) × Result TokenBucket.Decision
  take_bucket label buckets key bucket now amount =
      let (bucket', result) = TokenBucket.take bucket now amount in
      (
        insert key bucket' buckets,
        elim result [ ok decision ↦ ok decision | err e ↦ err (wrap label e) ],
      )

  unfoldable pub take_keyed :
      String
      → String
      → Config
      → List (K × Bucket)
      → K
      → ℕ
      → ℕ
      → List (K × Bucket) × Result TokenBucket.Decision
  take_keyed create_label take_label config buckets key now amount = elim (lookup key buckets) [
    | some bucket ↦ take_bucket take_label buckets key bucket now amount
    | none ↦ elim (TokenBucket.new config now) [
      | err e ↦ (buckets, err (wrap create_label e))
      | ok bucket ↦ take_bucket take_label buckets key bucket now amount
    ]
  ]

-- A bucket's decision as the limiter's.
abbrev pub undegraded : TokenBucket.Decision → Decision
undegraded decision = record {
  allowed = decision.allowed;
  degraded = false;
  reason = "";
  remaining = decision.remaining;
  retry_after = decision.retry_after;
}

-- A method called through a pointer, which fails on a nil one.
abbrev pub through : {S R : Type 0} → String → (S → S × Result R) → Option S → Option S × Result R
through label method none = (none, err (message label))
through label method (some s) = let (s', result) = method s in (some s', result)
