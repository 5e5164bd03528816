-- ===== src/Limiter/PerNode.antt =====
-- labs/scenarios/distributed-rate-limiter/limiter.go: a bucket for each tenant and
-- node.
use works_on_my_whiteboard.Prelude.{
  check, ◌else_check◌, wrapped, Bool, true, not, ◌&&◌, Option, none, some, List, [], String, ◌≡◌,
  ◌↔◌, arith, GoError, message, Result, ok, err,
}
use works_on_my_whiteboard.Prelude.Dict.{Key, str_eq, str_eq_iff, string_key}
use works_on_my_whiteboard.Bucket.{Bucket, Config}
use works_on_my_whiteboard.Limiter.{
  Request, Decision, Env, poll, through, validate_request, validate_token_bucket_config, take_keyed,
  undegraded,
}

pub record TenantNodeKey : Type 0 where
  pub tenant_id : String
  pub node_id : String

abbrev pub key_eq : TenantNodeKey → TenantNodeKey → Bool
key_eq a b = str_eq a.tenant_id b.tenant_id && str_eq a.node_id b.node_id

pub key_eq_iff : (a b : TenantNodeKey) → (key_eq a b ≡ true) ↔ (a ≡ b)
key_eq_iff a b = ground (arith, str_eq_iff a.tenant_id b.tenant_id, str_eq_iff a.node_id b.node_id)

instance abbrev pub tenant_node_key : Key TenantNodeKey
tenant_node_key = record { same = key_eq; same_iff = key_eq_iff }

pub record PerNodeLimiter : Type 0 where
  pub config : Config
  pub buckets : List (TenantNodeKey × Bucket)

unfoldable pub new_per_node_limiter : Bool → Config → Result PerNodeLimiter
new_per_node_limiter has_clock config =
    elim (check (not has_clock) (message "per-node limiter clock is nil")
      else_check wrapped "per-node limiter config" (validate_token_bucket_config config)) [
        | some e ↦ err e
        | none ↦ ok (record { config = config; buckets = [] })
      ]

-- The early returns of PerNodeLimiter.Allow; its polls are 0, 1 and 2.
unfoldable pub per_node_refusal : Config → Env → Request → Option GoError
per_node_refusal config env request =
    validate_request env request config.capacity
    else_check wrapped "per-node limiter context unavailable" (poll env 0)
    else_check wrapped "per-node limiter context unavailable before mutation" (poll env 1)
    else_check wrapped "per-node limiter context unavailable before mutation" (poll env 2)

unfoldable pub per_node_allow : PerNodeLimiter → Env → Request → PerNodeLimiter × Result Decision
per_node_allow l env request =
    let key : TenantNodeKey = record { tenant_id = request.tenant_id; node_id = request.node_id } in
    let (buckets', result) =
      take_keyed "create per-node bucket" "take per-node token" l.config l.buckets key env.now
        request.amount in
    elim (per_node_refusal l.config env request) [
      | some e ↦ (l, err e)
      | none ↦ (
        record l { buckets = buckets' },
        elim result [ ok decision ↦ ok (undegraded decision) | err e ↦ err e ],
      )
    ]

unfoldable pub per_node_allow_pointer :
    Option PerNodeLimiter → Env → Request → Option PerNodeLimiter × Result Decision
per_node_allow_pointer l env request =
    through "per-node limiter is nil" (λ l'. per_node_allow l' env request) l
