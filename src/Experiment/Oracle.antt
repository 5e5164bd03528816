-- ===== src/Experiment/Oracle.antt =====
-- labs/primitives/token-bucket/run.go: what the oracle of the experiment and its metrics agree on.
use works_on_my_whiteboard.Prelude.{String, ℕ, ◌≡◌, ◌↔◌, true, some, arith}
use works_on_my_whiteboard.Bucket.{Decision}
use works_on_my_whiteboard.Experiment.{frozen_probe_decision, probe_passed, probe_name}

-- For each kind of probe that has a metric, the decisions that set it are exactly the frozen decision
-- of the oracle.
pub probe_passed_iff :
    (kind : ℕ) (name : String) (decision : Decision)
    → probe_name kind ≡ some name
    → (probe_passed kind decision ≡ true) ↔ (frozen_probe_decision kind ≡ some decision)
unfolding probe_passed frozen_probe_decision probe_name
probe_passed_iff kind name decision h = ground arith
