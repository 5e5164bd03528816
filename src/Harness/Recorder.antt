-- ===== src/Harness/Recorder.antt =====
-- labs/harness/recorder.go: named counters.
pub mod Search
pub mod Readings
pub mod Updates
use works_on_my_whiteboard.Prelude.{
  ℕ, zero, suc, ◌+◌, ◌-◌, ◌/◌, ◌%◌, ◌^◌, Bool, true, false, not, ◌&&◌, ◌||◌, Option, none, some,
  List, [], ◌∷◌, map, ltb, if◌then◌else◌, String, GoError, message, check, ◌else_check◌, commit,
  u64_mod, length, get_elem?,
}
use works_on_my_whiteboard.Prelude.Int.{ℤ, pos, negsuc, pos_part, neg_part, ◌+ℤ◌, ◌-ℤ◌, ltb_ℤ}
use works_on_my_whiteboard.Prelude.Dict.{string_key, str_eq, lookup, insert}
use works_on_my_whiteboard.Prelude.Text.{is_blank}
use works_on_my_whiteboard.Prelude.Sort.{stable_sort, text_lt}
use works_on_my_whiteboard.Harness.{Metric, Snapshot}

abbrev pub max_int64 : ℤ
max_int64 = pos (2 ^ 63 - 1)

abbrev pub min_int64 : ℤ
min_int64 = negsuc (2 ^ 63 - 1)

-- The wrap-around of an int64.
unfoldable pub int64 : ℤ → ℤ
int64 z =
    let bits = (pos_part z + (u64_mod - neg_part z % u64_mod)) % u64_mod in
    if ltb bits (2 ^ 63) then pos bits else negsuc (u64_mod - 1 - bits)

-- The map from names to metrics.
pub record Recorder : Type 0 where
  pub metrics : List (String × Metric)

abbrev pub new_recorder : Recorder
new_recorder = record { metrics = [] }

unfoldable pub validate_metric_identity : String → String → Option GoError
validate_metric_identity name unit =
    check (is_blank name) (message "metric name must be nonblank")
    else_check check (is_blank unit) (message "metric unit must be nonblank")

-- A metric is there with another unit.
abbrev pub unit_differs : Option Metric → String → Bool
unit_differs none unit = false
unit_differs (some metric) unit = not (str_eq metric.unit unit)

abbrev pub metric_or_new : Option Metric → String → String → Metric
metric_or_new none name unit = record { name = name; unit = unit; value = pos 0 }
metric_or_new (some metric) name unit = metric

unfoldable pub overflows : ℤ → ℤ → Bool
overflows value delta =
    ltb_ℤ (pos 0) delta && ltb_ℤ (max_int64 -ℤ delta) value
    || ltb_ℤ delta (pos 0) && ltb_ℤ value (min_int64 -ℤ delta)

-- The early returns of Add after those on the identity and the nil receiver.
unfoldable pub add_refusal : Option Metric → String → String → ℤ → Option GoError
add_refusal existing name unit delta =
    check (unit_differs existing unit) (message "metric already uses another unit")
    else_check check (overflows (metric_or_new existing name unit).value delta)
        (message "adding to metric overflows int64")

unfoldable pub recorder_add : Recorder → String → String → ℤ → Recorder × Option GoError
recorder_add r name unit delta =
    let existing = lookup name r.metrics in
    let metric = metric_or_new existing name unit in
    commit (validate_metric_identity name unit else_check add_refusal existing name unit delta) r
      (record r {
        metrics = insert name (record metric { value = int64 (metric.value +ℤ delta) }) r.metrics;
      })

unfoldable pub recorder_set : Recorder → String → String → ℤ → Recorder × Option GoError
recorder_set r name unit value =
    commit
      (validate_metric_identity name unit
        else_check check (unit_differs (lookup name r.metrics) unit)
            (message "metric already uses another unit"))
      r
      (record r {
        metrics = insert name (record { name = name; unit = unit; value = value }) r.metrics;
      })

abbrev pub by_name : Metric → Metric → Bool
by_name left right = text_lt left.name right.name

unfoldable pub snapshot : Recorder → Snapshot
snapshot r = record { metrics = stable_sort by_name (map (λ entry. entry.1) r.metrics) }

-- sort.Search on the indices from i to j. The interval shrinks, so its length is enough fuel.
unfoldable pub search_from : (ℕ → Bool) → ℕ → ℕ → ℕ → ℕ
search_from test zero i j = i
search_from test (suc fuel) i j =
    let h = (i + j) / 2 in
    let rest = if test h then search_from test fuel i h else search_from test fuel (h + 1) j in
    if ltb i j then rest else i

-- metrics[index].Name >= name
abbrev pub at_or_after : List Metric → String → ℕ → Bool
at_or_after metrics name index = elim (get_elem? metrics index) [
  | none ↦ true
  | some metric ↦ not (text_lt metric.name name)
]

-- What Value makes of the metric at the index, where there is one.
abbrev pub read_at : Option Metric → String → Option ℤ
read_at none name = none
read_at (some metric) name = if str_eq metric.name name then some metric.value else none

unfoldable pub value : Snapshot → String → Option ℤ
value s name =
    let count = length s.metrics in
    read_at (get_elem? s.metrics (search_from (at_or_after s.metrics name) count 0 count)) name

-- The methods through a pointer, which may be nil.
unfoldable pub recorder_add_pointer :
    Option Recorder → String → String → ℤ → Option Recorder × Option GoError
recorder_add_pointer none name unit delta =
    (none, validate_metric_identity name unit else_check some (message "recorder is nil"))
recorder_add_pointer (some r) name unit delta =
    let (r', error) = recorder_add r name unit delta in (some r', error)

unfoldable pub recorder_set_pointer :
    Option Recorder → String → String → ℤ → Option Recorder × Option GoError
recorder_set_pointer none name unit value =
    (none, validate_metric_identity name unit else_check some (message "recorder is nil"))
recorder_set_pointer (some r) name unit value =
    let (r', error) = recorder_set r name unit value in (some r', error)

unfoldable pub snapshot_pointer : Option Recorder → Snapshot
snapshot_pointer none = record { metrics = [] }
snapshot_pointer (some r) = snapshot r
