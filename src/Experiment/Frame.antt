-- ===== src/Experiment/Frame.antt =====
-- labs/primitives/token-bucket/run.go: what the end of a call of applyProbe leaves as it was.
use works_on_my_whiteboard.Prelude.{
  ℕ, false, Option, none, some, String, GoError, arith, ◌==◌, ltb, Bool-cases, inl, inr, ◌≡◌, ◌∙◌,
  refl,
}
use works_on_my_whiteboard.Prelude.Int.{ℤ, pos}
use works_on_my_whiteboard.Prelude.Dict.{str_eq}
use works_on_my_whiteboard.Bucket.{Decision}
use works_on_my_whiteboard.Harness.Recorder.{Recorder, recorder_set, int64, snapshot, value}
use works_on_my_whiteboard.Harness.Recorder.Readings.{IsValid, IsInt64}
use works_on_my_whiteboard.Harness.Recorder.Updates.{Updated, recorder_set-Updated}
use works_on_my_whiteboard.Experiment.{
  ExperimentState, ◌then_call◌, record_probe_outcome, record_outcome, probe_name, probe_passed,
  probe_multi_interval,
}
use works_on_my_whiteboard.Experiment.Probe.{record_maximum}
use works_on_my_whiteboard.Experiment.Counts.{Readings, Reads, int64-IsInt64}

-- A metric that the end of a probe does not set.
abbrev pub IsOther : String → Type 0
IsOther n =
    (str_eq "tokens.max_observed" n ≡ false)
    × (str_eq "probe.initial_burst_allowed" n ≡ false)
    × (str_eq "probe.immediate_denied" n ≡ false)
    × (str_eq "probe.pre_boundary_denied" n ≡ false)
    × (str_eq "probe.boundary_allowed" n ≡ false)

-- The recorder is valid and has this reading, unless the call failed.
abbrev pub ReadsAt : String → Option ℤ → Recorder × Option GoError → Type 0
ReadsAt n v (r, none) = IsValid r × (value (snapshot r) n ≡ v)
ReadsAt n v (r, some e) = Unit

set-ReadsAt :
    (n : String) (v : Option ℤ) (r : Recorder) (name unit : String) (z : ℤ)
    → IsInt64 z
    → str_eq name n ≡ false
    → ReadsAt n v (r, none)
    → ReadsAt n v (recorder_set r name unit z)
set-ReadsAt n v r name unit z fits other reads =
    split (recorder_set r name unit z) (recorder_set-Updated r name unit z reads.0 fits)
  where
    split : (result : Recorder × Option GoError) → Updated r name z result → ReadsAt n v result
    split (r', none) h = (h.0, h.1 n ∙ rw other (reads.1))
    split (r', some e) h = tt

probe_name-other :
    (kind : ℕ) (n name : String) → IsOther n → probe_name kind ≡ some name → str_eq name n ≡ false
unfolding probe_name
probe_name-other kind n name other h = ground (arith, other.1, other.2, other.3, other.4)

record_outcome-ReadsAt :
    (n : String) (v : Option ℤ) (r : Recorder) (name : Option String) (kind : ℕ) (got : Decision)
    → ((name' : String) → name ≡ some name' → str_eq name' n ≡ false)
    → ReadsAt n v (r, none)
    → ReadsAt n v (record_outcome name r kind got)
unfolding record_outcome
record_outcome-ReadsAt n v r none kind got h reads =
    elim (Bool-cases (kind == probe_multi_interval)) [
      | inl multi ↦ rw multi reads
      | inr unknown ↦ rw unknown tt
    ]
record_outcome-ReadsAt n v r (some name) kind got h reads =
    elim (Bool-cases (probe_passed kind got)) [
      | inl passed ↦
          rw passed (set-ReadsAt n v r name "count" (pos 1) (omega arith) (h name refl) reads)
      | inr failed ↦ rw failed reads
    ]

record_probe_outcome-ReadsAt :
    (n : String) (v : Option ℤ) (r : Recorder) (kind : ℕ) (got : Decision)
    → IsOther n
    → ReadsAt n v (r, none)
    → ReadsAt n v (record_probe_outcome r kind got)
unfolding record_probe_outcome
record_probe_outcome-ReadsAt n v r kind got other reads =
    record_outcome-ReadsAt n v r (probe_name kind) kind got
      (λ name h. probe_name-other kind n name other h) reads

set_then-ReadsAt :
    (n : String) (v : Option ℤ) (first : Recorder × Option GoError) (kind : ℕ) (got : Decision)
    → IsOther n
    → ReadsAt n v first
    → ReadsAt n v (first then_call (λ r. record_probe_outcome r kind got))
set_then-ReadsAt n v (r, none) kind got other reads =
    record_probe_outcome-ReadsAt n v r kind got other reads
set_then-ReadsAt n v (r, some e) kind got other reads = tt

pub record_maximum-ReadsAt :
    (n : String) (v : Option ℤ) (s : ExperimentState) (got : Decision) (kind : ℕ)
    (first : Recorder × Option GoError)
    → IsOther n
    → ReadsAt n v first
    → let result = record_maximum s got kind first in ReadsAt n v (result.0.1, result.1)
unfolding record_maximum
record_maximum-ReadsAt n v s got kind (r, some e) other reads = tt
record_maximum-ReadsAt n v s got kind (r, none) other reads =
    elim (Bool-cases (ltb s.max_observed got.remaining)) [
      | inl more ↦ rw more (
          set_then-ReadsAt n v
            (recorder_set r "tokens.max_observed" "tokens" (int64 (pos got.remaining))) kind got
            other
            (set-ReadsAt n v r "tokens.max_observed" "tokens" (int64 (pos got.remaining))
              (int64-IsInt64 (pos got.remaining)) other.0 reads))
      | inr less ↦ rw less (record_probe_outcome-ReadsAt n v r kind got other reads)
    ]

pub Reads-ReadsAt :
    (f : Readings) (n : String) (result : Recorder × Option GoError)
    → Reads f result
    → ReadsAt n (f n) result
Reads-ReadsAt f n (r, none) h = (h.0, h.1 n)
Reads-ReadsAt f n (r, some e) h = tt

pub finished :
    (n : String) (v : Option ℤ) (r : Recorder) (error : Option GoError)
    → ReadsAt n v (r, error)
    → error ≡ none
    → IsValid r × (value (snapshot r) n ≡ v)
finished n v r none h done = h
finished n v r (some e) h done = cc
