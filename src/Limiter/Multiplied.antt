-- ===== src/Limiter/Multiplied.antt =====
-- The claim "distributed-rate-limiter-per-node-multiplies-global-quota", about PerNodeLimiter in
-- labs/scenarios/distributed-rate-limiter/limiter.go.
use works_on_my_whiteboard.Prelude.{
  ℕ, ◌+◌, ◌-◌, ◌*◌, ◌/◌, ◌≤◌, ◌≡◌, ◌⊎◌, refl, inl, inr, Bool, true, false, List, [], ◌∷◌, ◌&&◌,
  ◌||◌, if◌then◌else◌, ok, arith, String, All, length,
}
use works_on_my_whiteboard.Prelude.Int.{pos_part}
use works_on_my_whiteboard.Prelude.Dict.{str_eq, lookup}
use works_on_my_whiteboard.Bucket as TokenBucket
use works_on_my_whiteboard.Bucket.{Config}
use works_on_my_whiteboard.Bucket.Take.{IsWords, IsUsable}
use works_on_my_whiteboard.Bucket.Rate.{total, total-Balanced, Balanced-bound}
use works_on_my_whiteboard.Limiter.{validate_token_bucket_config}
use works_on_my_whiteboard.Limiter.PerNode.{
  TenantNodeKey, key_eq, tenant_node_key, PerNodeLimiter, new_per_node_limiter, per_node_allow,
}
use works_on_my_whiteboard.Limiter.Stores.{IsStore, or_full-anchor}
use works_on_my_whiteboard.Limiter.Quota.{IsBetween}
use works_on_my_whiteboard.Limiter.Nodes.{
  AllowCall, key_of, handed, per_node_step, IsPerNode, key_bucket, per_node_step-Balanced,
}

abbrev pub sum_over : List String → (String → ℕ) → ℕ
sum_over [] g = 0
sum_over (n ∷ ns) g = g n + sum_over ns g

sum_over-add :
    (ns : List String) (f g : String → ℕ)
    → sum_over ns (λ n. f n + g n) ≡ sum_over ns f + sum_over ns g
sum_over-add [] f g = omega arith
sum_over-add (n ∷ ns) f g = omega (arith, sum_over-add ns f g)

sum_over-le :
    (ns : List String) (f : String → ℕ) (bound : ℕ)
    → ((n : String) → f n ≤ bound)
    → sum_over ns f ≤ length ns * bound
sum_over-le [] f bound h = omega arith
sum_over-le (n ∷ ns) f bound h = omega (arith, h n, sum_over-le ns f bound h)

-- Whether a node is in a list.
abbrev pub is_among : String → List String → Bool
is_among node [] = false
is_among node (n ∷ ns) = str_eq node n || is_among node ns

abbrev pub of_tenant : String → TenantNodeKey → Bool
of_tenant tenant k = str_eq k.tenant_id tenant

abbrev pub of_key : String → String → TenantNodeKey → Bool
of_key tenant node k = key_eq k (record { tenant_id = tenant; node_id = node })

one_or_rest :
    (a b : Bool) (x rest : ℕ)
    → (b ≡ true) ⊎ ((if a then x else 0) ≤ rest)
    → (if a then x else 0) ≤ (if a && b then x else 0) + rest
one_or_rest a b x rest h = ground arith

among_cases :
    (a b : Bool) (x rest : ℕ) → (b || a) ≡ true → (a ≡ true → x ≤ rest) → (b ≡ true) ⊎ (x ≤ rest)
among_cases a true x rest h k = inl refl
among_cases a false x rest h k = inr (k h)

among-sum_over :
    (ns : List String) (k : TenantNodeKey) (tenant : String) (x : ℕ)
    → is_among k.node_id ns ≡ true
    → (if of_tenant tenant k then x else 0) ≤ sum_over ns (λ n. if of_key tenant n k then x else 0)
among-sum_over [] k tenant x h = cc
among-sum_over (n ∷ ns) k tenant x h =
    let rest = sum_over ns (λ m. if of_key tenant m k then x else 0) in
    one_or_rest (str_eq k.tenant_id tenant) (str_eq k.node_id n) x rest (
      among_cases (is_among k.node_id ns) (str_eq k.node_id n) (if of_tenant tenant k then x else 0)
        rest h (among-sum_over ns k tenant x))

tenant_total-le :
    (tenant : String) (nodes : List String) (calls : List AllowCall) (l : PerNodeLimiter)
    → All (λ call. is_among call.request.node_id nodes ≡ true) calls
    → (total (per_node_step (of_tenant tenant)) l calls).1
      ≤ sum_over nodes (λ n. (total (per_node_step (of_key tenant n)) l calls).1)
unfolding total
tenant_total-le tenant nodes [] l h = omega arith
tenant_total-le tenant nodes (call ∷ calls) l h =
    let l' = (per_node_allow l call.env call.request).0 in
    let out = handed call.request.amount (per_node_allow l call.env call.request).1 in
    omega (
      arith,
      among-sum_over nodes (key_of call.request) tenant out h.0,
      tenant_total-le tenant nodes calls l' h.1,
      sum_over-add nodes (λ n. if of_key tenant n (key_of call.request) then out else 0)
          (λ n. (total (per_node_step (of_key tenant n)) l' calls).1),
    )

new_per_node_limiter-eq-ok :
    (config : Config) {l : PerNodeLimiter}
    → new_per_node_limiter true config ≡ ok l
    → (l ≡ record { config = config; buckets = [] }) × IsUsable config
unfolding new_per_node_limiter validate_token_bucket_config TokenBucket.new
new_per_node_limiter-eq-ok config made = (ground arith, ground arith)

empty-IsStore :
    (config : Config) (start last : ℕ) → IsStore {K = TenantNodeKey} config start last []
unfolding lookup
empty-IsStore config start last k b found = cc

key_quota :
    (config : Config) (tenant node : String) (calls : List AllowCall) (start last : ℕ)
    → IsWords config
    → IsUsable config
    → start ≤ last
    → All (λ call. IsBetween start last call.env) calls
    → (total
        (per_node_step (of_key tenant node))
        (record { config = config; buckets = [] })
        calls).1
      ≤ config.capacity + (last - start) / pos_part config.refill_every
unfolding lookup
key_quota config tenant node calls start last w u h t =
    let l : PerNodeLimiter = record { config = config; buckets = [] } in
    let key : TenantNodeKey = record { tenant_id = tenant; node_id = node } in
    let start_state : IsPerNode start last l = record {
      usable = u;
      words = w;
      stored = empty-IsStore config start last;
    } in
    let (i, balanced) =
      total-Balanced (per_node_step (of_key tenant node)) (key_bucket start key)
        (IsPerNode start last) (λ call. IsBetween start last call.env)
        (per_node_step-Balanced start last key) l calls start_state t in
    let end = (total (per_node_step (of_key tenant node)) l calls).0 in
    Balanced-bound (key_bucket start key l) (key_bucket start key end) _ last balanced u.refill_pos
      (or_full-anchor end.config start last (lookup key end.buckets) h (i.stored key))

-- A new per-node limiter hands a tenant, over all the nodes of a list that the requests go to, at most
-- as many times the capacity plus the whole refill intervals between `start` and `last` as there are
-- nodes, whatever else is asked.
pub per_node_quota :
    (config : Config) (tenant : String) (nodes : List String) (calls : List AllowCall)
    (start last : ℕ) {l : PerNodeLimiter}
    → IsWords config
    → new_per_node_limiter true config ≡ ok l
    → start ≤ last
    → All (λ call. IsBetween start last call.env) calls
    → All (λ call. is_among call.request.node_id nodes ≡ true) calls
    → (total (per_node_step (of_tenant tenant)) l calls).1
      ≤ length nodes * (config.capacity + (last - start) / pos_part config.refill_every)
per_node_quota config tenant nodes calls start last {l} w made h t a =
    let (same, u) = new_per_node_limiter-eq-ok config made in
    let fresh : PerNodeLimiter = record { config = config; buckets = [] } in
    rw same (
      omega (
        arith,
        tenant_total-le tenant nodes calls fresh a,
        sum_over-le nodes (λ n. (total (per_node_step (of_key tenant n)) fresh calls).1)
            (config.capacity + (last - start) / pos_part config.refill_every)
            (λ n. key_quota config tenant n calls start last w u h t),
      ))
