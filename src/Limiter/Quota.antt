-- ===== src/Limiter/Quota.antt =====
-- The quota of labs/scenarios/distributed-rate-limiter/limiter.go: the shared coordinator enforces one for
-- each tenant, whatever the nodes; the per-node limiter one for each tenant and node.
use works_on_my_whiteboard.Prelude.{
  ℕ, ◌+◌, ◌-◌, ◌/◌, ◌≤◌, ◌<◌, ◌≡◌, inl, inr, Bool, true, false, none, some, List, [], if◌then◌else◌,
  Result, ok, err, GoError, arith, Option-cases, String, All,
}
use works_on_my_whiteboard.Prelude.Int.{pos_part}
use works_on_my_whiteboard.Prelude.Dict.{str_eq, string_key, lookup}
use works_on_my_whiteboard.GoTime.{time_limit}
use works_on_my_whiteboard.Bucket as TokenBucket
use works_on_my_whiteboard.Bucket.{Bucket, Config, full}
use works_on_my_whiteboard.Bucket.Take.{IsWords, IsUsable}
use works_on_my_whiteboard.Bucket.Rate.{granted, Balanced, total, total-Balanced, Balanced-bound}
use works_on_my_whiteboard.Limiter.{Env, take_keyed, validate_token_bucket_config}
use works_on_my_whiteboard.Limiter.Shared.{
  SharedCoordinator, new_shared_coordinator, shared_take, shared_refusal,
}
use works_on_my_whiteboard.Limiter.PerNode.{tenant_node_key}
use works_on_my_whiteboard.Limiter.Stores.{IsStore, bucket_of, ask-Balanced, or_full-anchor}

-- A call of SharedCoordinator.Take.
pub record TakeCall : Type 0 where
  pub env : Env
  pub first_poll : ℕ
  pub tenant_id : String
  pub amount : ℕ

-- The clock reading of a call lies between two instants.
pub record IsBetween (start last : ℕ) (env : Env) : Type 0 where
  pub started : start ≤ env.now
  pub ended : env.now ≤ last
  pub instant : env.now < time_limit

abbrev shared_ask :
    SharedCoordinator → String → ℕ → ℕ → List (String × Bucket) × Result TokenBucket.Decision
shared_ask c =
    take_keyed "create shared tenant bucket" "take shared tenant token" c.config c.buckets

-- One call, and the tokens that it hands to the tenant.
abbrev pub shared_step : String → SharedCoordinator → TakeCall → SharedCoordinator × ℕ
shared_step tenant c call =
    let (c', result) = shared_take c call.env call.first_poll call.tenant_id call.amount in
    (c', if str_eq call.tenant_id tenant then granted call.amount result else 0)

record IsShared (start last : ℕ) (c : SharedCoordinator) : Type 0 where
  usable : IsUsable c.config
  words : IsWords c.config
  stored : IsStore c.config start last c.buckets

-- The tenant's bucket, or the one that it would get at `start`.
abbrev tenant_bucket : ℕ → String → SharedCoordinator → Bucket
tenant_bucket start tenant c = bucket_of c.config start c.buckets tenant

shared_take_refused :
    (c : SharedCoordinator) (env : Env) (k : ℕ) (tenant_id : String) (amount : ℕ) (e : GoError)
    → shared_refusal c.config env k tenant_id amount ≡ some e
    → shared_take c env k tenant_id amount ≡ (c, err e)
unfolding shared_take
shared_take_refused c env k tenant_id amount e h = ground arith

shared_take_served :
    (c : SharedCoordinator) (env : Env) (k : ℕ) (tenant_id : String) (amount : ℕ)
    → shared_refusal c.config env k tenant_id amount ≡ none
    → let asked = shared_ask c tenant_id env.now amount in
      shared_take c env k tenant_id amount ≡ (record c { buckets = asked.0 }, asked.1)
unfolding shared_take
shared_take_served c env k tenant_id amount h = ground arith

shared_step-Balanced :
    (start last : ℕ) (tenant : String) (c : SharedCoordinator) (call : TakeCall)
    → IsShared start last c
    → IsBetween start last call.env
    → IsShared start last (shared_step tenant c call).0
      × Balanced
          (tenant_bucket start tenant c)
          (tenant_bucket start tenant (shared_step tenant c call).0)
          (shared_step tenant c call).1
shared_step-Balanced start last tenant c call i t =
    elim (Option-cases
      (shared_refusal c.config call.env call.first_poll call.tenant_id call.amount)) [
        | inr (e, refused) ↦
            rw (shared_take_refused c call.env call.first_poll call.tenant_id call.amount e refused)
              (i, if_zero (str_eq call.tenant_id tenant))
        | inl served ↦
            let (stored, balanced) =
              ask-Balanced c.config "create shared tenant bucket" "take shared tenant token" start
                last c.buckets call.tenant_id tenant call.env.now call.amount i.usable i.words
                t.started t.ended t.instant i.stored in
            rw (shared_take_served c call.env call.first_poll call.tenant_id call.amount served)
              (record { usable = i.usable; words = i.words; stored = stored }, balanced)
      ]
  where
    if_zero :
        (b : Bool)
        → Balanced
            (tenant_bucket start tenant c)
            (tenant_bucket start tenant c)
            (if b then 0 else 0)
    if_zero true = omega arith
    if_zero false = omega arith

new_shared_coordinator-eq-ok :
    (config : Config) {c : SharedCoordinator}
    → new_shared_coordinator true config ≡ ok c
    → (c ≡ record { initialized = true; config = config; buckets = [] }) × IsUsable config
unfolding new_shared_coordinator validate_token_bucket_config TokenBucket.new
new_shared_coordinator-eq-ok config made = (ground arith, ground arith)

empty-IsStore : (config : Config) (start last : ℕ) → IsStore {K = String} config start last []
unfolding lookup
empty-IsStore config start last k b found = cc

total-IsShared :
    (tenant : String) (calls : List TakeCall) (start last : ℕ) (c : SharedCoordinator)
    → IsShared start last c
    → All (λ call. IsBetween start last call.env) calls
    → IsShared start last (total (shared_step tenant) c calls).0
      × Balanced
          (tenant_bucket start tenant c)
          (tenant_bucket start tenant (total (shared_step tenant) c calls).0)
          (total (shared_step tenant) c calls).1
total-IsShared tenant calls start last c i t =
    total-Balanced (shared_step tenant) (tenant_bucket start tenant) (IsShared start last)
      (λ call. IsBetween start last call.env) (shared_step-Balanced start last tenant) c calls i t

shared_quota_from :
    (config : Config) (tenant : String) (calls : List TakeCall) (start last : ℕ)
    → IsWords config
    → IsUsable config
    → start ≤ last
    → All (λ call. IsBetween start last call.env) calls
    → (total
        (shared_step tenant)
        (record { initialized = true; config = config; buckets = [] })
        calls).1
      ≤ config.capacity + (last - start) / pos_part config.refill_every
unfolding lookup
shared_quota_from config tenant calls start last w u h t =
    let c : SharedCoordinator = record { initialized = true; config = config; buckets = [] } in
    let start_state : IsShared start last c = record {
      usable = u;
      words = w;
      stored = empty-IsStore config start last;
    } in
    let (i, balanced) = total-IsShared tenant calls start last c start_state t in
    let end = (total (shared_step tenant) c calls).0 in
    Balanced-bound (tenant_bucket start tenant c) (tenant_bucket start tenant end) _ last balanced
      u.refill_pos
      (or_full-anchor end.config start last (lookup tenant end.buckets) h (i.stored tenant))

-- Whatever the nodes that ask, a new shared coordinator hands a tenant at most the capacity and one more
-- token for each whole refill interval between `start` and `last`, over any sequence of calls, of this
-- and other tenants, whose clock readings lie between the two.
pub shared_quota :
    (config : Config) (tenant : String) (calls : List TakeCall) (start last : ℕ)
    {c : SharedCoordinator}
    → IsWords config
    → new_shared_coordinator true config ≡ ok c
    → start ≤ last
    → All (λ call. IsBetween start last call.env) calls
    → (total (shared_step tenant) c calls).1
      ≤ config.capacity + (last - start) / pos_part config.refill_every
shared_quota config tenant calls start last {c} w made h t =
    let (same, u) = new_shared_coordinator-eq-ok config made in
    rw same (shared_quota_from config tenant calls start last w u h t)
