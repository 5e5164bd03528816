-- ===== src/Experiment/Counts.antt =====
-- labs/primitives/token-bucket/run.go: what calls of the recorder in a row do to its readings.
use works_on_my_whiteboard.Prelude.{
  Bool, true, false, not, Option, none, some, List, [], ◌∷◌, String, GoError, if◌then◌else◌, arith,
  subst, All, ◌≡◌, refl,
}
use works_on_my_whiteboard.Prelude.Int.{ℤ, pos}
use works_on_my_whiteboard.Prelude.Dict.{str_eq}
use works_on_my_whiteboard.Harness.{Metric}
use works_on_my_whiteboard.Harness.Recorder.{
  Recorder, recorder_add, recorder_set, int64, snapshot, value,
}
use works_on_my_whiteboard.Harness.Recorder.Readings.{IsValid, IsInt64, plus}
use works_on_my_whiteboard.Harness.Recorder.Updates.{
  Updated, recorder_add-Updated, recorder_set-Updated,
}
use works_on_my_whiteboard.Experiment.{
  ◌then_call◌, labelled, set_metrics, run_metrics, initialize_run_metrics,
}

pub int64-IsInt64 : (z : ℤ) → IsInt64 (int64 z)
unfolding int64
int64-IsInt64 z = ground arith

abbrev pub Readings : Type 0
Readings = String → Option ℤ

-- The recorder has these readings, unless the call failed.
abbrev pub Reads : Readings → Recorder × Option GoError → Type 0
Reads f (r, none) = IsValid r × ((n : String) → value (snapshot r) n ≡ f n)
Reads f (r, some e) = Unit

abbrev pub written : String → ℤ → Readings → Readings
written name z f n = if str_eq name n then some z else f n

abbrev pub counted : String → Readings → Readings
counted name f = written name (plus (f name) (pos 1)) f

Updated-Reads :
    (f : Readings) (r : Recorder) (name : String) (final : ℤ) (result : Recorder × Option GoError)
    → Reads f (r, none)
    → Updated r name final result
    → Reads (written name final f) result
Updated-Reads f r name final (r', some e) reads h = tt
Updated-Reads f r name final (r', none) reads h = (h.0, λ n. rw (h.1 n, reads.1 n) refl)

pub set-Reads :
    (f : Readings) (r : Recorder) (name unit : String) (z : ℤ)
    → IsInt64 z
    → Reads f (r, none)
    → Reads (written name z f) (recorder_set r name unit z)
set-Reads f r name unit z fits reads =
    Updated-Reads f r name z (recorder_set r name unit z) reads
      (recorder_set-Updated r name unit z reads.0 fits)

pub count-Reads :
    (f : Readings) (r : Recorder) (name : String)
    → Reads f (r, none)
    → Reads (counted name f) (recorder_add r name "count" (pos 1))
count-Reads f r name reads =
    Updated-Reads f r name (plus (f name) (pos 1)) (recorder_add r name "count" (pos 1)) reads (
      subst (λ v. Updated r name (plus v (pos 1)) (recorder_add r name "count" (pos 1)))
        (reads.1 name) (recorder_add-Updated r name "count" (pos 1) reads.0))

pub then_call-Reads :
    (f g : Readings) (first : Recorder × Option GoError)
    (next : Recorder → Recorder × Option GoError)
    → Reads f first
    → ((r : Recorder) → Reads f (r, none) → Reads g (next r))
    → Reads g (first then_call next)
then_call-Reads f g (r, some e) next reads h = tt
then_call-Reads f g (r, none) next reads h = h r reads

pub if-Reads :
    (b : Bool) (f g : Readings) (x y : Recorder × Option GoError)
    → Reads f x
    → Reads g y
    → Reads (if b then f else g) (if b then x else y)
if-Reads true f g x y h k = h
if-Reads false f g x y h k = k

-- What the metrics to begin with make of the readings.
abbrev pub initial : List Metric → Readings → Readings
initial [] f = f
initial (m ∷ ms) f = initial ms (written m.name m.value f)

labelled-Reads :
    (f : Readings) (label : String) (result : Recorder × Option GoError)
    → Reads f result
    → Reads f (labelled label result)
labelled-Reads f label (r, none) h = h
labelled-Reads f label (r, some e) h = tt

set_metrics-Reads :
    (f : Readings) (ms : List Metric) (r : Recorder)
    → All (λ (m : Metric). IsInt64 m.value) ms
    → Reads f (r, none)
    → Reads (initial ms f) (set_metrics ms r)
unfolding set_metrics
set_metrics-Reads f [] r fit reads = reads
set_metrics-Reads f (m ∷ ms) r fit reads =
    then_call-Reads (written m.name m.value f) (initial ms (written m.name m.value f))
      (labelled "initialize metric" (recorder_set r m.name m.unit m.value))
      (λ r'. set_metrics ms r')
      (labelled-Reads (written m.name m.value f) "initialize metric"
        (recorder_set r m.name m.unit m.value) (set-Reads f r m.name m.unit m.value fit.0 reads))
      (λ r' h. set_metrics-Reads (written m.name m.value f) ms r' fit.1 h)

-- The readings that a probe starts from: those of the recorder, or, the first time, the metrics to begin
-- with.
abbrev pub started : Bool → Readings → Readings
started true f = f
started false f = initial run_metrics f

pub initialize-Reads :
    (initialized : Bool) (r : Recorder)
    → IsValid r
    → Reads
        (started initialized (λ n. value (snapshot r) n))
        (if not initialized then initialize_run_metrics r else (r, none))
unfolding initialize_run_metrics
initialize-Reads true r valid = (valid, λ n. refl)
initialize-Reads false r valid =
    set_metrics-Reads (λ n. value (snapshot r) n) run_metrics r (omega arith) (valid, λ n. refl)
