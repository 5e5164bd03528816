-- ===== src/Scenario/Checks.antt =====
-- labs/scenarios/distributed-rate-limiter/scenario.go: what the check of a decision accepts.
use works_on_my_whiteboard.Prelude.{Bool, true, false, ◌≡◌, ◌↔◌, none, arith}
use works_on_my_whiteboard.Prelude.Dict.{str_eq, str_eq_iff}
use works_on_my_whiteboard.Limiter.{Decision}
use works_on_my_whiteboard.Scenario.{
  ScenarioState, validate_decision, implementation_shared_fail_open,
}

-- The answer to a request in an outage, under the policy of fail-open or of fail-closed.
abbrev pub outage_answer : Bool → Decision
outage_answer true = record {
  allowed = true;
  degraded = true;
  reason = "coordinator-unavailable-fail-open";
  remaining = 0;
  retry_after = 0;
}
outage_answer false = record {
  allowed = false;
  degraded = true;
  reason = "coordinator-unavailable-fail-closed";
  remaining = 0;
  retry_after = 0;
}

-- In an outage the check accepts exactly one decision: the degraded grant if the implementation is
-- the one that fails open, and the degraded denial for every other implementation.
pub validate_decision_outage :
    (s : ScenarioState) (decision : Decision)
    → s.outage ≡ true
    → (validate_decision s decision ≡ none)
      ↔ (decision ≡ outage_answer (str_eq s.implementation_id implementation_shared_fail_open))
unfolding validate_decision
validate_decision_outage s decision out = ground (
  arith,
  str_eq_iff decision.reason "coordinator-unavailable-fail-open",
  str_eq_iff decision.reason "coordinator-unavailable-fail-closed",
)
