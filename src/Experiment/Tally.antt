-- ===== src/Experiment/Tally.antt =====
-- labs/primitives/token-bucket/run.go: what a call of applyProbe counts.
use works_on_my_whiteboard.Prelude.{
  ℕ, Bool, true, false, not, Option, none, some, String, GoError, ok, if◌then◌else◌, ◌≡◌, refl, sym,
  subst,
}
use works_on_my_whiteboard.Prelude.Int.{ℤ, pos}
use works_on_my_whiteboard.Bucket.{Decision}
use works_on_my_whiteboard.Harness.Recorder.{Recorder, recorder_add, int64, snapshot, value}
use works_on_my_whiteboard.Harness.Recorder.Readings.{IsValid, plus}
use works_on_my_whiteboard.Experiment.{
  ExperimentState, initialize_run_metrics, same_decision, frozen_probe_decision, subject_take,
}
use works_on_my_whiteboard.Experiment.Probe.{
  Outcome, record_decision, record_maximum, judge_probe, judge_frozen, after_initialize,
  apply_probe,
}
use works_on_my_whiteboard.Experiment.Counts.{
  Readings, Reads, written, counted, set-Reads, count-Reads, then_call-Reads, if-Reads, started,
  initialize-Reads, int64-IsInt64,
}
use works_on_my_whiteboard.Experiment.Frame.{
  IsOther, ReadsAt, record_maximum-ReadsAt, Reads-ReadsAt, finished,
}

abbrev decided : Bool → Bool → ℤ → Readings → Readings
decided allowed same remaining f =
    let f1 = if same then f else counted "reference.mismatches" f in
    let f2 = counted "requests.total" f1 in
    let f3 = if allowed then counted "requests.allowed" f2 else counted "requests.denied" f2 in
    written "tokens.remaining" remaining f3

record_decision-Reads :
    (f : Readings) (r : Recorder) (got want : Decision)
    → Reads f (r, none)
    → Reads
        (decided got.allowed (same_decision got want) (int64 (pos got.remaining)) f)
        (record_decision r got want)
unfolding record_decision
record_decision-Reads f r got want reads =
    let f1 = if same_decision got want then f else counted "reference.mismatches" f in
    let f2 = counted "requests.total" f1 in
    let f3 = if got.allowed then counted "requests.allowed" f2 else counted "requests.denied" f2 in
    then_call-Reads f3 (written "tokens.remaining" (int64 (pos got.remaining)) f3) _ _
      (then_call-Reads f2 f3 _ _
        (then_call-Reads f1 f2 _ _
          (if-Reads (same_decision got want) f (counted "reference.mismatches" f) (r, none)
            (recorder_add r "reference.mismatches" "count" (pos 1)) reads
            (count-Reads f r "reference.mismatches" reads))
          (λ r1 h. count-Reads f1 r1 "requests.total" h))
        (λ r2 h.
          if-Reads got.allowed (counted "requests.allowed" f2) (counted "requests.denied" f2) _ _
            (count-Reads f2 r2 "requests.allowed" h) (count-Reads f2 r2 "requests.denied" h)))
      (λ r3 h.
        set-Reads f3 r3 "tokens.remaining" "tokens" (int64 (pos got.remaining))
          (int64-IsInt64 (pos got.remaining)) h)

-- What a probe leaves of a reading that its end does not set.
after_initialize-decided :
    (f : Readings) (s : ExperimentState) (now amount kind : ℕ) (first : Recorder × Option GoError)
    (got want : Decision) (n : String)
    → IsOther n
    → Reads f first
    → (subject_take s.subject now amount).1 ≡ ok got
    → frozen_probe_decision kind ≡ some want
    → (after_initialize s now amount kind first).1 ≡ none
    → let after = (after_initialize s now amount kind first).0.1 in
      IsValid after
      × (value (snapshot after) n
          ≡ decided got.allowed (same_decision got want) (int64 (pos got.remaining)) f n)
unfolding after_initialize judge_probe judge_frozen
after_initialize-decided f s now amount kind (r, some e) got want n other reads took frozen done =
    cc
after_initialize-decided f s now amount kind (r, none) got want n other reads took frozen done =
    let v = decided got.allowed (same_decision got want) (int64 (pos got.remaining)) f in
    let s1 = record s { initialized = true; subject = (subject_take s.subject now amount).0 } in
    let out = after_initialize s now amount kind (r, none) in
    let judged : out ≡ record_maximum s1 got kind (record_decision r got want) =
      rw (took, frozen) refl in
    finished n (v n) out.0.1 out.1
      (subst (λ (o : Outcome). ReadsAt n (v n) (o.0.1, o.1)) (sym judged)
        (record_maximum-ReadsAt n (v n) s1 got kind (record_decision r got want) other (
          Reads-ReadsAt v n (record_decision r got want)
            (record_decision-Reads f r got want reads))))
      done

-- One more request, allowed or denied as the decision `got` says, one more mismatch where it is not the
-- decision `want`, and its remaining tokens, over the readings before.
abbrev pub IsTally : Readings → Bool → Bool → ℤ → Recorder → Type 0
IsTally before allowed same remaining after =
    let reading : Readings = λ n. value (snapshot after) n in
    let one_more : Readings = λ n. some (plus (before n) (pos 1)) in
    (reading "requests.total" ≡ one_more "requests.total")
    × (reading "requests.allowed"
        ≡ (if allowed then one_more "requests.allowed" else before "requests.allowed"))
    × (reading "requests.denied"
        ≡ (if allowed then before "requests.denied" else one_more "requests.denied"))
    × (reading "reference.mismatches"
        ≡ (if same then before "reference.mismatches" else one_more "reference.mismatches"))
    × (reading "tokens.remaining" ≡ some remaining)

at_counters :
    (f : Readings) (after : Recorder)
    → ((n : String) → IsOther n → value (snapshot after) n ≡ f n)
    → (value (snapshot after) "requests.total" ≡ f "requests.total")
      × (value (snapshot after) "requests.allowed" ≡ f "requests.allowed")
      × (value (snapshot after) "requests.denied" ≡ f "requests.denied")
      × (value (snapshot after) "reference.mismatches" ≡ f "reference.mismatches")
      × (value (snapshot after) "tokens.remaining" ≡ f "tokens.remaining")
at_counters f after h = (
  h "requests.total" (refl, refl, refl, refl, refl),
  h "requests.allowed" (refl, refl, refl, refl, refl),
  h "requests.denied" (refl, refl, refl, refl, refl),
  h "reference.mismatches" (refl, refl, refl, refl, refl),
  h "tokens.remaining" (refl, refl, refl, refl, refl),
)

decided-IsTally :
    (allowed same : Bool) (remaining : ℤ) (f : Readings) (after : Recorder)
    → ((n : String) → IsOther n → value (snapshot after) n ≡ decided allowed same remaining f n)
    → IsTally f allowed same remaining after
decided-IsTally true true z f after h = at_counters (decided true true z f) after h
decided-IsTally true false z f after h = at_counters (decided true false z f) after h
decided-IsTally false true z f after h = at_counters (decided false true z f) after h
decided-IsTally false false z f after h = at_counters (decided false false z f) after h

-- The counters before a probe: the first probe starts them at 0.
abbrev pub counts_before : Bool → Recorder → Readings
counts_before true r n = value (snapshot r) n
counts_before false r n = some (pos 0)

started-IsTally :
    (initialized allowed same : Bool) (remaining : ℤ) (r after : Recorder)
    → IsTally (started initialized (λ n. value (snapshot r) n)) allowed same remaining after
    → IsTally (counts_before initialized r) allowed same remaining after
started-IsTally true allowed same remaining r after h = h
started-IsTally false allowed same remaining r after h = h

-- On a valid recorder, a probe that returns no error leaves a valid recorder with these readings, for
-- the decision of the subject and the frozen one of its kind: one more request in total, one more
-- allowed or one more denied as the subject decided and no more of the other, one more mismatch
-- exactly where the decisions differ, and the tokens that the subject says remain, as an int64. The
-- counters are those of the recorder, and 0 before the first probe.
pub apply_probe-IsTally :
    (s : ExperimentState) (r : Recorder) (now amount kind : ℕ) (got want : Decision)
    → IsValid r
    → (subject_take s.subject now amount).1 ≡ ok got
    → frozen_probe_decision kind ≡ some want
    → (apply_probe s r now amount kind).1 ≡ none
    → let after = (apply_probe s r now amount kind).0.1 in
      IsValid after
      × IsTally
          (counts_before s.initialized r)
          got.allowed
          (same_decision got want)
          (int64 (pos got.remaining))
          after
unfolding apply_probe
apply_probe-IsTally s r now amount kind got want valid took frozen done =
    let first = if not s.initialized then initialize_run_metrics r else (r, none) in
    let f = started s.initialized (λ n. value (snapshot r) n) in
    let after = (after_initialize s now amount kind first).0.1 in
    let same = same_decision got want in
    let remaining = int64 (pos got.remaining) in
    let reads = λ (n : String) (other : IsOther n).
      after_initialize-decided f s now amount kind first got want n other
        (initialize-Reads s.initialized r valid) took frozen done in
    (
      (reads "requests.total" (refl, refl, refl, refl, refl)).0,
      started-IsTally s.initialized got.allowed same remaining r after
          (decided-IsTally got.allowed same remaining f after (λ n other. (reads n other).1)),
    )
