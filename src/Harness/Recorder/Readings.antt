-- ===== src/Harness/Recorder/Readings.antt =====
-- labs/harness/recorder.go: what Add and Set make of the values that a snapshot reads.
use works_on_my_whiteboard.Prelude.{
  ◌≡◌, false, Option, none, some, List, [], ◌∷◌, map, if◌then◌else◌, String, Bool-cases, inl, inr,
  refl, ◌∙◌, arith, All,
}
use works_on_my_whiteboard.Prelude.Int.{ℤ, ◌+ℤ◌, ◌≤ℤ◌, +ℤ_parts, -ℤ_parts}
use works_on_my_whiteboard.Prelude.Dict.{string_key, str_eq, str_eq_iff, lookup, insert}
use works_on_my_whiteboard.Prelude.Sort.{
  stable_sort, insert_sorted, stable_sort-IsSorted, text_lt_irrefl, text_lt-IsWeakOrder,
  IsWeakOrder,
}
use works_on_my_whiteboard.Harness.{Metric}
use works_on_my_whiteboard.Harness.Recorder.{
  Recorder, snapshot, by_name, value, int64, overflows, max_int64, min_int64, metric_or_new,
}
use works_on_my_whiteboard.Harness.Recorder.Search.{find, value-find}

-- Every metric stands under its own name, with a value that an int64 holds.
abbrev pub IsInt64 : ℤ → Type 0
IsInt64 z = (min_int64 ≤ℤ z) × (z ≤ℤ max_int64)

abbrev pub IsKept : String × Metric → Type 0
IsKept entry = (entry.1.name ≡ entry.0) × IsInt64 entry.1.value

abbrev pub IsValid : Recorder → Type 0
IsValid r = All IsKept r.metrics

by_name-IsWeakOrder : IsWeakOrder by_name
by_name-IsWeakOrder = record {
  asym = λ a b h. text_lt-IsWeakOrder.asym a.name b.name h;
  neg_trans = λ a b c h k. text_lt-IsWeakOrder.neg_trans a.name b.name c.name h k;
}

find-insert_sorted :
    (m : Metric) (ms : List Metric) (name : String)
    → find (insert_sorted by_name m ms) name
      ≡ (if str_eq m.name name then some m.value else find ms name)
unfolding insert_sorted
find-insert_sorted m [] name = refl
find-insert_sorted m (y ∷ ms) name = elim (Bool-cases (by_name y m)) [
  | inr not_less ↦ rw not_less refl
  | inl less ↦ elim (Bool-cases (str_eq y.name name)) [
    | inr other ↦ rw (less, other) (find-insert_sorted m ms name)
    | inl same ↦ elim (Bool-cases (str_eq m.name name)) [
      | inr other ↦ rw (less, same, other) refl
      | inl also ↦ cc (
        (str_eq_iff y.name name).0 same,
        (str_eq_iff m.name name).0 also,
        less,
        text_lt_irrefl name,
      )
    ]
  ]
]

find-stable_sort :
    (ms : List Metric) (name : String) → find (stable_sort by_name ms) name ≡ find ms name
unfolding stable_sort
find-stable_sort [] name = refl
find-stable_sort (m ∷ ms) name =
    rw (find-insert_sorted m (stable_sort by_name ms) name, find-stable_sort ms name) refl

-- The value that the map holds.
abbrev pub value_of : Option Metric → Option ℤ
value_of none = none
value_of (some m) = some m.value

find-lookup :
    (metrics : List (String × Metric)) (name : String)
    → All IsKept metrics
    → find (map (λ entry. entry.1) metrics) name ≡ value_of (lookup name metrics)
unfolding lookup
find-lookup [] name kept = refl
find-lookup (entry ∷ metrics) name kept = elim (Bool-cases (str_eq entry.0 name)) [
  | inl same ↦ rw (kept.0.0, same) refl
  | inr other ↦ rw (kept.0.0, other) (find-lookup metrics name kept.1)
]

-- On a valid recorder, the binary search in a snapshot finds the value that the recorder's map holds
-- for a name, and nothing for a name that the map does not have.
pub value-snapshot :
    (r : Recorder) (name : String)
    → IsValid r
    → value (snapshot r) name ≡ value_of (lookup name r.metrics)
unfolding snapshot
value-snapshot r name valid =
    value-find (stable_sort by_name (map (λ entry. entry.1) r.metrics)) name
      (stable_sort-IsSorted by_name (map (λ entry. entry.1) r.metrics) by_name-IsWeakOrder)
    ∙ find-stable_sort (map (λ entry. entry.1) r.metrics) name
    ∙ find-lookup r.metrics name valid

pub int64-exact : (z : ℤ) → IsInt64 z → int64 z ≡ z
unfolding int64
int64-exact z h = ground arith

pub not_overflows : (a delta : ℤ) → IsInt64 a → overflows a delta ≡ false → IsInt64 (a +ℤ delta)
unfolding overflows
not_overflows a delta h safe =
    ground (arith, +ℤ_parts a delta, -ℤ_parts max_int64 delta, -ℤ_parts min_int64 delta)

pub All-insert :
    (name : String) (m : Metric) (metrics : List (String × Metric))
    → IsKept (name, m)
    → All IsKept metrics
    → All IsKept (insert name m metrics)
unfolding insert
All-insert name m [] kept h = (kept, tt)
All-insert name m (entry ∷ metrics) kept h = elim (Bool-cases (str_eq entry.0 name)) [
  | inl same ↦ rw same (kept, h.1)
  | inr other ↦ rw other (h.0, All-insert name m metrics kept h.1)
]

pub metric_or_new-IsKept :
    (name unit : String) (metrics : List (String × Metric))
    → All IsKept metrics
    → IsKept (name, metric_or_new (lookup name metrics) name unit)
unfolding lookup
metric_or_new-IsKept name unit [] kept = (refl, omega arith)
metric_or_new-IsKept name unit (entry ∷ metrics) kept = elim (Bool-cases (str_eq entry.0 name)) [
  | inl same ↦ rw same (kept.0.0 ∙ (str_eq_iff entry.0 name).0 same, kept.0.1)
  | inr other ↦ rw other (metric_or_new-IsKept name unit metrics kept.1)
]

-- What a name's reading comes to once it is added to: a name without a metric counts from 0.
abbrev pub plus : Option ℤ → ℤ → ℤ
plus none delta = delta
plus (some a) delta = a +ℤ delta
