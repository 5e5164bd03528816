-- ===== src/Limiter/Outage.antt =====
-- The outage policy of coordinatedLimiter in labs/scenarios/distributed-rate-limiter/limiter.go.
use works_on_my_whiteboard.Prelude.{
  ℕ, zero, suc, ◌<◌, ◌≡◌, ◌⊎◌, ◌↔◌, inl, inr, refl, sym, subst, true, false, Option, none, some,
  Result, ok, err, GoError, sentinel, message, wrap, joined, Sentinel, String, arith, List, [], ◌∷◌,
}
use works_on_my_whiteboard.Bucket as TokenBucket
use works_on_my_whiteboard.Limiter.{Env, Request, Decision, policy_fail_open, undegraded, poll}
use works_on_my_whiteboard.Bucket.Rate.{granted, total}
use works_on_my_whiteboard.Limiter.Shared.{
  AvailabilityCoordinator, availability_take, availability_refusal, set_available,
}
use works_on_my_whiteboard.Limiter.Coordinated.{
  CoordinatorTake, coordinated_allow, decide, is_exclusive_coordinator_unavailable, exclusive_from,
  is_unavailable, maximum_linear_depth, poll_after_take,
}

-- An error that is ErrCoordinatorUnavailable under `depth` wrappers with one cause each.
pub data IsOutage : ℕ → GoError → Type 0 where
  bare : IsOutage zero (sentinel Sentinel.coordinator_unavailable)
  wrapped :
      {depth : ℕ} (label : String) {e : GoError}
      → IsOutage depth e
      → IsOutage (suc depth) (wrap label e)

is_unavailable-eq : (s : Sentinel) → is_unavailable s ≡ true → s ≡ Sentinel.coordinator_unavailable
is_unavailable-eq s h = ground arith

exclusive_of_IsOutage :
    (rounds : ℕ) {depth : ℕ} {e : GoError}
    → IsOutage depth e
    → depth < rounds
    → exclusive_from rounds e ≡ true
unfolding exclusive_from
exclusive_of_IsOutage zero o h = absurd (omega arith)
exclusive_of_IsOutage (suc rounds) bare h = refl
exclusive_of_IsOutage (suc rounds) (wrapped label o) h =
    exclusive_of_IsOutage rounds o (omega arith)

IsOutage_of_exclusive :
    (rounds : ℕ) (e : GoError)
    → exclusive_from rounds e ≡ true
    → (depth : ℕ) × IsOutage depth e × (depth < rounds)
unfolding exclusive_from
IsOutage_of_exclusive zero e h = cc
IsOutage_of_exclusive (suc rounds) (sentinel s) h =
    (0, subst (λ x. IsOutage zero (sentinel x)) (sym (is_unavailable-eq s h)) bare, omega arith)
IsOutage_of_exclusive (suc rounds) (message m) h = cc
IsOutage_of_exclusive (suc rounds) (wrap m e) h =
    let (depth, o, l) = IsOutage_of_exclusive rounds e h in (suc depth, wrapped m o, omega arith)
IsOutage_of_exclusive (suc rounds) (joined es) h = cc

-- isExclusiveCoordinatorUnavailable accepts exactly the errors that are ErrCoordinatorUnavailable under
-- fewer than 64 wrappers of one cause each: not an error that joins it with others, nor one that wraps a
-- different cause.
pub exclusive_iff :
    (e : GoError)
    → (is_exclusive_coordinator_unavailable e ≡ true)
      ↔ ((depth : ℕ) × IsOutage depth e × (depth < maximum_linear_depth))
exclusive_iff e = (
  IsOutage_of_exclusive maximum_linear_depth e,
  λ (depth, o, l). exclusive_of_IsOutage maximum_linear_depth o l,
)

-- Where an allowed decision comes from.
abbrev pub Grant : ℕ → Result TokenBucket.Decision → Decision → Type 0
Grant policy answer d =
    ((b : TokenBucket.Decision) × (answer ≡ ok b) × (b.allowed ≡ true) × (d ≡ undegraded b))
    ⊎ ((e : GoError) × (answer ≡ err e)
        × (is_exclusive_coordinator_unavailable e ≡ true)
        × (policy ≡ policy_fail_open)
        × (d.degraded ≡ true)
        × (d.remaining ≡ 0))

decide-Grant :
    (policy : ℕ) (after : Option GoError) (answer : Result TokenBucket.Decision) {d : Decision}
    → decide policy after answer ≡ ok d
    → d.allowed ≡ true
    → Grant policy answer d
unfolding decide
decide-Grant policy (some e) answer h a = cc
decide-Grant policy none (ok b) h a = inl (b, refl, ground arith, ground arith)
decide-Grant policy none (err e) h a =
    inr (e, refl, ground arith, ground arith, ground arith, ground arith)

allow-decide :
    {S : Type 0} (take : CoordinatorTake S) (policy : ℕ) (s : S) (env : Env) (request : Request)
    {d : Decision}
    → (coordinated_allow take policy s env request).1 ≡ ok d
    → decide policy (poll env poll_after_take) (take s env 1 request.tenant_id request.amount).1
      ≡ ok d
unfolding coordinated_allow
allow-decide take policy s env request h = ground arith

-- The limiter never grants by accident: an allowed decision is the coordinator's own grant, with its
-- remaining tokens, or, under the fail-open policy alone and marked as degraded, follows an error of the
-- coordinator that is an outage and nothing else.
pub coordinated-Grant :
    {S : Type 0} (take : CoordinatorTake S) (policy : ℕ) (s : S) (env : Env) (request : Request)
    {d : Decision}
    → (coordinated_allow take policy s env request).1 ≡ ok d
    → d.allowed ≡ true
    → Grant policy (take s env 1 request.tenant_id request.amount).1 d
coordinated-Grant take policy s env request h a =
    decide-Grant policy (poll env poll_after_take) (take s env 1 request.tenant_id request.amount).1
      (allow-decide take policy s env request h) a

-- A call of AvailabilityCoordinator.Take.
pub record OutageCall : Type 0 where
  pub env : Env
  pub first_poll : ℕ
  pub tenant_id : String
  pub amount : ℕ

abbrev pub availability_step : AvailabilityCoordinator → OutageCall → AvailabilityCoordinator × ℕ
availability_step c call =
    let (c', result) = availability_take c call.env call.first_poll call.tenant_id call.amount in
    (c', granted call.amount result)

unavailable_state :
    (c : AvailabilityCoordinator) (env : Env) (k : ℕ) (tenant_id : String) (amount : ℕ)
    → c.available ≡ false
    → ((availability_take c env k tenant_id amount).0 ≡ c)
      × (granted amount (availability_take c env k tenant_id amount).1 ≡ 0)
unfolding availability_take availability_refusal
unavailable_state c env k tenant_id amount h = (ground arith, ground arith)

unavailable-total :
    (c : AvailabilityCoordinator) (calls : List OutageCall)
    → c.available ≡ false
    → total availability_step c calls ≡ (c, 0)
unfolding total
unavailable-total c [] h = refl
unavailable-total c (call ∷ calls) h =
    let (state, out) = unavailable_state c call.env call.first_poll call.tenant_id call.amount h in
    rw (state, out, unavailable-total c calls h) refl

-- An outage costs no tokens and forgets none: whatever is called between SetAvailable(false) and
-- SetAvailable(true), the coordinator hands out nothing and ends as it was, but available.
pub outage_round_trip :
    (c : AvailabilityCoordinator) (calls : List OutageCall)
    → let (c', out) = total availability_step (set_available c false) calls in
      (set_available c' true ≡ set_available c true) × (out ≡ 0)
unfolding set_available
outage_round_trip c calls =
    rw (unavailable-total (record c { available = false }) calls refl) (refl, refl)
