-- ===== src/Experiment.antt =====
-- labs/primitives/token-bucket/run.go: the experiment on the token bucket.
pub mod Probe
pub mod Oracle
pub mod Counts
pub mod Frame
pub mod Tally
pub mod Passes
mod Examples
use works_on_my_whiteboard.Prelude.{
  ℕ, ◌-◌, ◌*◌, Bool, true, false, not, ◌&&◌, Option, none, some, List, [], ◌∷◌, ltb, leb, ◌==◌,
  if◌then◌else◌, String, GoError, message, wrap, Result, ok, err,
}
use works_on_my_whiteboard.Prelude.Int.{ℤ, pos, pos_part, neg_part, ltb_ℤ}
use works_on_my_whiteboard.Prelude.Dict.{str_eq}
use works_on_my_whiteboard.GoTime.{second, unix_epoch}
use works_on_my_whiteboard.Bucket as TokenBucket
use works_on_my_whiteboard.Bucket.{Bucket, Config, Decision}
use works_on_my_whiteboard.Bucket.Reference.{ReferenceBucket, new_reference_bucket, reference_take}
use works_on_my_whiteboard.Harness.{Metric, Snapshot}
use works_on_my_whiteboard.Harness.Recorder.{Recorder, recorder_add, recorder_set, value, int64}

abbrev pub reference_implementation_id : String
reference_implementation_id = "token-bucket-reference-model"

abbrev pub bucket_implementation_id : String
bucket_implementation_id = "token-bucket"

abbrev pub run_capacity : ℕ
run_capacity = 4

abbrev pub run_refill_every : ℕ
run_refill_every = second

abbrev pub run_burst_amount : ℕ
run_burst_amount = 4

abbrev pub run_unit_amount : ℕ
run_unit_amount = 1

-- The implementations of decisionTaker that the program has.
pub data Subject : Type 0 where
  reference : ReferenceBucket → Subject
  bucket : Bucket → Subject

unfoldable pub subject_take : Subject → ℕ → ℕ → Subject × Result Decision
subject_take (reference b) now amount =
    let (b', result) = reference_take b now amount in (reference b', result)
subject_take (bucket b) now amount =
    let (b', result) = TokenBucket.take b now amount in (bucket b', result)

-- The kinds of probes, of the type uint8.
abbrev pub probe_initial_burst : ℕ
probe_initial_burst = 0

abbrev pub probe_immediate_denial : ℕ
probe_immediate_denial = 1

abbrev pub probe_pre_boundary_denial : ℕ
probe_pre_boundary_denial = 2

abbrev pub probe_boundary_allowance : ℕ
probe_boundary_allowance = 3

abbrev pub probe_multi_interval : ℕ
probe_multi_interval = 4

pub record ExperimentState : Type 0 where
  pub subject : Subject
  pub initialized : Bool
  pub max_observed : ℕ

abbrev pub allowance : Decision
allowance = record { allowed = true; remaining = 0; retry_after = 0 }

abbrev pub denial : ℕ → Decision
denial retry_after = record { allowed = false; remaining = 0; retry_after = retry_after }

unfoldable pub frozen_probe_decision : ℕ → Option Decision
frozen_probe_decision kind =
    if kind == probe_initial_burst
    then some allowance
    else if kind == probe_immediate_denial
    then some (denial run_refill_every)
    else if kind == probe_pre_boundary_denial
    then some (denial 1)
    else if kind == probe_boundary_allowance
    then some allowance
    else if kind == probe_multi_interval
    then some allowance
    else none

-- One call after another, unless it returns an error.
infixl 20 ◌then_call◌
abbrev pub ◌then_call◌ :
    Recorder × Option GoError → (Recorder → Recorder × Option GoError) → Recorder × Option GoError
(r, some e) then_call next = (r, some e)
(r, none) then_call next = next r

abbrev pub counter : String → Metric
counter name = record { name = name; unit = "count"; value = pos 0 }

abbrev pub tokens : String → Metric
tokens name = record { name = name; unit = "tokens"; value = pos run_capacity }

abbrev pub run_metrics : List Metric
run_metrics =
    counter "requests.total"
    ∷ counter "requests.allowed"
    ∷ counter "requests.denied"
    ∷ tokens "tokens.capacity"
    ∷ tokens "tokens.remaining"
    ∷ tokens "tokens.max_observed"
    ∷ counter "probe.initial_burst_allowed"
    ∷ counter "probe.immediate_denied"
    ∷ counter "probe.pre_boundary_denied"
    ∷ counter "probe.boundary_allowed"
    ∷ counter "reference.mismatches"
    ∷ []

abbrev pub labelled : String → Recorder × Option GoError → Recorder × Option GoError
labelled label (r, none) = (r, none)
labelled label (r, some e) = (r, some (wrap label e))

unfoldable pub set_metrics : List Metric → Recorder → Recorder × Option GoError
set_metrics [] r = (r, none)
set_metrics (m ∷ ms) r =
    labelled "initialize metric" (recorder_set r m.name m.unit m.value)
    then_call (λ r'. set_metrics ms r')

unfoldable pub initialize_run_metrics : Recorder → Recorder × Option GoError
initialize_run_metrics r = set_metrics run_metrics r

-- The metric of a kind of probe, and whether a decision is what it looks for. The kind without a
-- metric has none.
unfoldable pub probe_name : ℕ → Option String
probe_name kind =
    if kind == probe_initial_burst
    then some "probe.initial_burst_allowed"
    else if kind == probe_immediate_denial
    then some "probe.immediate_denied"
    else if kind == probe_pre_boundary_denial
    then some "probe.pre_boundary_denied"
    else if kind == probe_boundary_allowance
    then some "probe.boundary_allowed"
    else none

unfoldable pub probe_passed : ℕ → Decision → Bool
probe_passed kind decision =
    if kind == probe_initial_burst
    then decision.allowed && decision.remaining == 0 && decision.retry_after == 0
    else if kind == probe_immediate_denial
    then not decision.allowed && decision.remaining == 0 && decision.retry_after == run_refill_every
    else if kind == probe_pre_boundary_denial
    then not decision.allowed && decision.remaining == 0 && decision.retry_after == 1
    else if kind == probe_boundary_allowance
    then decision.allowed && decision.remaining == 0 && decision.retry_after == 0
    else false

unfoldable pub record_outcome : Option String → Recorder → ℕ → Decision → Recorder × Option GoError
record_outcome none r kind decision =
    (r, if kind == probe_multi_interval then none else some (message "unknown probe kind"))
record_outcome (some name) r kind decision =
    if not (probe_passed kind decision) then (r, none) else recorder_set r name "count" (pos 1)

unfoldable pub record_probe_outcome : Recorder → ℕ → Decision → Recorder × Option GoError
record_probe_outcome r kind decision = record_outcome (probe_name kind) r kind decision

abbrev pub same_decision : Decision → Decision → Bool
same_decision got want =
    same_bool got.allowed want.allowed
    && got.remaining == want.remaining
    && got.retry_after == want.retry_after
  where
    same_bool : Bool → Bool → Bool
    same_bool true b = b
    same_bool false b = not b
