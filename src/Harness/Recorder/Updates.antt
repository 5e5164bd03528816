-- ===== src/Harness/Recorder/Updates.antt =====
-- labs/harness/recorder.go: what Add and Set change.
use works_on_my_whiteboard.Prelude.{
  ◌≡◌, Bool, true, false, Option, none, some, if◌then◌else◌, String, Option-cases, inl, inr, refl,
  sym, ap, ◌∙◌, subst, arith, GoError, check, ◌else_check◌, check-none, else_check-none, message,
}
use works_on_my_whiteboard.Prelude.Int.{ℤ, pos, ◌+ℤ◌, +ℤ_parts, eq_of_parts}
use works_on_my_whiteboard.Prelude.Dict.{string_key, str_eq, lookup, insert, lookup-insert}
use works_on_my_whiteboard.Harness.{Metric}
use works_on_my_whiteboard.Harness.Recorder.{
  Recorder, recorder_add, recorder_set, add_refusal, validate_metric_identity, snapshot, value,
  int64, overflows, metric_or_new, unit_differs,
}
use works_on_my_whiteboard.Harness.Recorder.Readings.{
  IsInt64, IsValid, IsKept, All-insert, metric_or_new-IsKept, not_overflows, int64-exact,
  value-snapshot, value_of, plus,
}

-- The recorder with a metric under a name.
abbrev with_metric : Recorder → String → Metric → Recorder
with_metric r name metric = record r { metrics = insert name metric r.metrics }

value_of_if :
    (same : Bool) (m : Metric) (rest : Option Metric)
    → value_of (if same then some m else rest) ≡ (if same then some m.value else value_of rest)
value_of_if true m rest = refl
value_of_if false m rest = refl

with_metric_reading :
    (r : Recorder) (name : String) (m : Metric) (n : String)
    → IsValid r
    → IsKept (name, m)
    → value (snapshot (with_metric r name m)) n
      ≡ (if str_eq name n then some m.value else value (snapshot r) n)
with_metric_reading r name m n valid kept = rw (value-snapshot r n valid) (
    value-snapshot (with_metric r name m) n (All-insert name m r.metrics kept valid)
    ∙ ap value_of (lookup-insert name n m r.metrics)
    ∙ value_of_if (str_eq name n) m (lookup n r.metrics))

-- The outcome of an update that makes `final` the value of a name: an error with the recorder as it
-- was, or no error and exactly that one reading changed.
abbrev pub Updated : Recorder → String → ℤ → Recorder × Option GoError → Type 0
Updated r name final (r', some e) = r' ≡ r
Updated r name final (r', none) =
    IsValid r'
    × ((n : String)
        → value (snapshot r') n ≡ (if str_eq name n then some final else value (snapshot r) n))

-- What the code adds is what a reading of the snapshot plus the delta comes to.
metric_or_new-plus :
    (r : Recorder) (name unit : String) (delta : ℤ)
    → IsValid r
    → (metric_or_new (lookup name r.metrics) name unit).value +ℤ delta
      ≡ plus (value (snapshot r) name) delta
metric_or_new-plus r name unit delta valid =
    rw (value-snapshot r name valid) (split (lookup name r.metrics))
  where
    split :
        (existing : Option Metric)
        → (metric_or_new existing name unit).value +ℤ delta ≡ plus (value_of existing) delta
    split none = eq_of_parts (pos 0 +ℤ delta) delta (omega (arith, +ℤ_parts (pos 0) delta))
    split (some m) = refl

with_metric-Updated :
    (r : Recorder) (name : String) (m : Metric) (final : ℤ)
    → IsValid r
    → IsKept (name, m)
    → m.value ≡ final
    → Updated r name final (with_metric r name m, none)
with_metric-Updated r name m final valid kept same =
    subst (λ z. Updated r name z (with_metric r name m, none)) same
      (All-insert name m r.metrics kept valid, λ n. with_metric_reading r name m n valid kept)

-- On a valid recorder, Add keeps it valid; it either fails and changes nothing, or adds the delta
-- exactly to the reading of the name, which counts from 0, and changes no other reading.
pub recorder_add-Updated :
    (r : Recorder) (name unit : String) (delta : ℤ)
    → IsValid r
    → Updated r name (plus (value (snapshot r) name) delta) (recorder_add r name unit delta)
unfolding recorder_add add_refusal
recorder_add-Updated r name unit delta valid =
    let existing = lookup name r.metrics in
    let metric = metric_or_new existing name unit in
    let kept = metric_or_new-IsKept name unit r.metrics valid in
    elim (Option-cases
      (validate_metric_identity name unit else_check add_refusal existing name unit delta)) [
        | inr (e, refused) ↦ rw refused refl
        | inl passed ↦
            let fits = not_overflows metric.value delta kept.1 (
              check-none (overflows metric.value delta) _
                (else_check-none _ _ (else_check-none _ _ passed).1).1) in
            let exact = int64-exact (metric.value +ℤ delta) fits in
            rw passed (
              with_metric-Updated r name (record metric { value = int64 (metric.value +ℤ delta) })
                (plus (value (snapshot r) name) delta) valid
                (kept.0, subst IsInt64 (sym exact) fits)
                (exact ∙ metric_or_new-plus r name unit delta valid))
      ]

-- On a valid recorder, Set to an int64 keeps it valid; it either fails and changes nothing, or makes
-- that value the reading of the name and changes no other reading.
pub recorder_set-Updated :
    (r : Recorder) (name unit : String) (final : ℤ)
    → IsValid r
    → IsInt64 final
    → Updated r name final (recorder_set r name unit final)
unfolding recorder_set
recorder_set-Updated r name unit final valid fits =
    elim (Option-cases (
      validate_metric_identity name unit
      else_check check (unit_differs (lookup name r.metrics) unit)
          (message "metric already uses another unit"))) [
            | inr (e, refused) ↦ rw refused refl
            | inl passed ↦ rw passed (
                with_metric-Updated r name (record { name = name; unit = unit; value = final })
                  final valid (refl, fits) refl)
          ]
