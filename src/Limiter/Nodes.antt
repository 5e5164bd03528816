-- ===== src/Limiter/Nodes.antt =====
-- The quota of PerNodeLimiter in labs/scenarios/distributed-rate-limiter/limiter.go: one for each tenant
-- and node, so a tenant's is multiplied by the nodes that it reaches.
use works_on_my_whiteboard.Prelude.{
  ℕ, ◌≡◌, refl, inl, inr, Bool, true, false, none, some, List, if◌then◌else◌, Result, ok, err,
  GoError, arith, Option-cases,
}
use works_on_my_whiteboard.Bucket as TokenBucket
use works_on_my_whiteboard.Bucket.{Bucket, Config}
use works_on_my_whiteboard.Bucket.Take.{IsWords, IsUsable}
use works_on_my_whiteboard.Bucket.Rate.{granted, Balanced}
use works_on_my_whiteboard.Limiter.{Env, Request, Decision, undegraded, take_keyed}
use works_on_my_whiteboard.Limiter.PerNode.{
  TenantNodeKey, key_eq, tenant_node_key, PerNodeLimiter, per_node_allow, per_node_refusal,
}
use works_on_my_whiteboard.Limiter.Stores.{IsStore, bucket_of, ask-Balanced}
use works_on_my_whiteboard.Limiter.Quota.{IsBetween}

-- The tokens that a limiter's result hands out.
abbrev pub handed : ℕ → Result Decision → ℕ
handed amount (ok d) = if d.allowed then amount else 0
handed amount (err e) = 0

-- A call of PerNodeLimiter.Allow.
pub record AllowCall : Type 0 where
  pub env : Env
  pub request : Request

abbrev pub key_of : Request → TenantNodeKey
key_of request = record { tenant_id = request.tenant_id; node_id = request.node_id }

-- One call, and the tokens that it hands to the chosen keys.
abbrev pub per_node_step : (TenantNodeKey → Bool) → PerNodeLimiter → AllowCall → PerNodeLimiter × ℕ
per_node_step chosen l call =
    let (l', result) = per_node_allow l call.env call.request in
    (l', if chosen (key_of call.request) then handed call.request.amount result else 0)

pub record IsPerNode (start last : ℕ) (l : PerNodeLimiter) : Type 0 where
  pub usable : IsUsable l.config
  pub words : IsWords l.config
  pub stored : IsStore l.config start last l.buckets

abbrev pub key_bucket : ℕ → TenantNodeKey → PerNodeLimiter → Bucket
key_bucket start key l = bucket_of l.config start l.buckets key

abbrev per_node_ask :
    PerNodeLimiter
    → TenantNodeKey
    → ℕ
    → ℕ
    → List (TenantNodeKey × Bucket) × Result TokenBucket.Decision
per_node_ask l = take_keyed "create per-node bucket" "take per-node token" l.config l.buckets

abbrev as_limiter : Result TokenBucket.Decision → Result Decision
as_limiter (ok d) = ok (undegraded d)
as_limiter (err e) = err e

handed-as_limiter :
    (amount : ℕ) (r : Result TokenBucket.Decision) → handed amount (as_limiter r) ≡ granted amount r
handed-as_limiter amount (ok d) = refl
handed-as_limiter amount (err e) = refl

per_node_refused :
    (l : PerNodeLimiter) (env : Env) (request : Request) (e : GoError)
    → per_node_refusal l.config env request ≡ some e
    → per_node_allow l env request ≡ (l, err e)
unfolding per_node_allow
per_node_refused l env request e h = ground arith

per_node_served :
    (l : PerNodeLimiter) (env : Env) (request : Request)
    → per_node_refusal l.config env request ≡ none
    → let asked = per_node_ask l (key_of request) env.now request.amount in
      per_node_allow l env request ≡ (record l { buckets = asked.0 }, as_limiter asked.1)
unfolding per_node_allow
per_node_served l env request h = ground arith

if_zero : (b : Bool) (x : Bucket) → Balanced x x (if b then 0 else 0)
if_zero true x = omega arith
if_zero false x = omega arith

pub per_node_step-Balanced :
    (start last : ℕ) (key : TenantNodeKey) (l : PerNodeLimiter) (call : AllowCall)
    → IsPerNode start last l
    → IsBetween start last call.env
    → let chosen : TenantNodeKey → Bool = λ k. key_eq k key in
      IsPerNode start last (per_node_step chosen l call).0
      × Balanced
          (key_bucket start key l)
          (key_bucket start key (per_node_step chosen l call).0)
          (per_node_step chosen l call).1
per_node_step-Balanced start last key l call i t =
    let k = key_of call.request in
    elim (Option-cases (per_node_refusal l.config call.env call.request)) [
      | inr (e, refused) ↦
          rw (per_node_refused l call.env call.request e refused)
            (i, if_zero (key_eq k key) (key_bucket start key l))
      | inl served ↦
          let (stored, balanced) =
            ask-Balanced l.config "create per-node bucket" "take per-node token" start last
              l.buckets k key call.env.now call.request.amount i.usable i.words t.started t.ended
              t.instant i.stored in
          rw (per_node_served l call.env call.request served, handed-as_limiter)
            (record { usable = i.usable; words = i.words; stored = stored }, balanced)
    ]
