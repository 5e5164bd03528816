-- ===== src/Harness/Recorder/Search.antt =====
-- labs/harness/recorder.go: the binary search in Snapshot.Value.
use works_on_my_whiteboard.Prelude.{
  ℕ, zero, suc, ◌+◌, ◌-◌, ◌/◌, ◌≤◌, ◌<◌, ◌≡◌, Bool, true, false, Option, none, some, List, [], ◌∷◌,
  leb, ltb, if◌then◌else◌, String, Bool-cases, inl, inr, refl, sym, ap, ◌∙◌, arith, length,
  get_elem?, All,
}
use works_on_my_whiteboard.Prelude.Int.{ℤ}
use works_on_my_whiteboard.Prelude.Dict.{str_eq, str_eq_iff}
use works_on_my_whiteboard.Prelude.Sort.{
  IsSorted, text_lt, text_lt_irrefl, text_lt-total, text_lt-IsWeakOrder,
}
use works_on_my_whiteboard.Harness.{Metric}
use works_on_my_whiteboard.Harness.Recorder.{search_from, at_or_after, by_name, read_at, value}

-- If the test holds exactly from c on, the search finds c.
pub search_from-boundary :
    (test : ℕ → Bool) (c fuel i j : ℕ)
    → ((h : ℕ) → h < j → test h ≡ leb c h)
    → i ≤ c
    → c ≤ j
    → j - i ≤ fuel
    → search_from test fuel i j ≡ c
unfolding search_from
search_from-boundary test c zero i j split low high enough = omega arith
search_from-boundary test c (suc fuel) i j split low high enough =
    let h = (i + j) / 2 in
    elim (Bool-cases (ltb i j)) [
      | inr empty ↦ rw empty (ground arith)
      | inl going ↦
          let half : h < j = ground arith in
          elim (Bool-cases (test h)) [
            | inl holds ↦
                rw (going, holds)
                  (search_from-boundary test c fuel i h (λ k l. split k (omega arith)) low
                    (ground (arith, split h half)) (ground arith))
            | inr fails ↦
                rw (going, fails)
                  (search_from-boundary test c fuel (h + 1) j split (ground (arith, split h half))
                    high (ground arith))
          ]
    ]

-- How many metrics at the front come before a name, and the first metric of a name.
abbrev pub rank : List Metric → String → ℕ
rank [] name = 0
rank (m ∷ ms) name = if text_lt m.name name then suc (rank ms name) else 0

abbrev pub find : List Metric → String → Option ℤ
find [] name = none
find (m ∷ ms) name = if str_eq m.name name then some m.value else find ms name

at_or_after-rank :
    (ms : List Metric) (name : String) (h : ℕ)
    → IsSorted by_name ms
    → h < length ms
    → at_or_after ms name h ≡ leb (rank ms name) h
at_or_after-rank [] name h sorted low = ground arith
at_or_after-rank (m ∷ ms) name zero sorted low = elim (Bool-cases (text_lt m.name name)) [
  | inl less ↦ rw less (ground arith)
  | inr not_less ↦ rw not_less (ground arith)
]
at_or_after-rank (m ∷ ms) name (suc h) sorted low = elim (Bool-cases (text_lt m.name name)) [
  | inl less ↦ rw less (ground (arith, at_or_after-rank ms name h sorted.1 (omega arith)))
  | inr not_less ↦ rw not_less (ground (arith, none_before ms name m h sorted.0 not_less))
]
  where
    none_before :
        (ms : List Metric) (name : String) (m : Metric) (h : ℕ)
        → All (λ y. by_name y m ≡ false) ms
        → text_lt m.name name ≡ false
        → at_or_after ms name h ≡ true
    none_before [] name m h sorted not_less = refl
    none_before (y ∷ ms) name m zero sorted not_less =
        rw (text_lt-IsWeakOrder.neg_trans y.name m.name name sorted.0 not_less) refl
    none_before (y ∷ ms) name m (suc h) sorted not_less = none_before ms name m h sorted.1 not_less

rank-length : (ms : List Metric) (name : String) → rank ms name ≤ length ms
rank-length [] name = omega arith
rank-length (m ∷ ms) name = ground (arith, rank-length ms name)

find-absent :
    (ms : List Metric) (name : String) (m : Metric)
    → All (λ y. by_name y m ≡ false) ms
    → text_lt m.name name ≡ false
    → str_eq m.name name ≡ false
    → find ms name ≡ none
find-absent [] name m sorted not_less differs = refl
find-absent (y ∷ ms) name m sorted not_less differs = elim (Bool-cases (str_eq y.name name)) [
  | inr other ↦ rw other (find-absent ms name m sorted.1 not_less differs)
  | inl same ↦ cc (
    (str_eq_iff m.name name).1
        (text_lt-total m.name name not_less (cc ((str_eq_iff y.name name).0 same, sorted.0))),
    differs,
  )
]

read_at-rank :
    (ms : List Metric) (name : String)
    → IsSorted by_name ms
    → read_at (get_elem? ms (rank ms name)) name ≡ find ms name
read_at-rank [] name sorted = refl
read_at-rank (m ∷ ms) name sorted = elim (Bool-cases (text_lt m.name name)) [
  | inl less ↦ elim (Bool-cases (str_eq m.name name)) [
    | inl same ↦ cc ((str_eq_iff m.name name).0 same, less, text_lt_irrefl name)
    | inr other ↦ rw (less, other) (read_at-rank ms name sorted.1)
  ]
  | inr not_less ↦ elim (Bool-cases (str_eq m.name name)) [
    | inl same ↦ rw (not_less, same) refl
    | inr other ↦ rw (not_less, other) (sym (find-absent ms name m sorted.0 not_less other))
  ]
]

-- The binary search on sorted metrics reads what a walk through them does.
pub value-find :
    (ms : List Metric) (name : String)
    → IsSorted by_name ms
    → value (record { metrics = ms }) name ≡ find ms name
unfolding value
value-find ms name sorted =
    ap (λ i. read_at (get_elem? ms i) name)
      (search_from-boundary (at_or_after ms name) (rank ms name) (length ms) 0 (length ms)
        (λ h low. at_or_after-rank ms name h sorted low) (omega arith) (rank-length ms name)
        (omega arith))
    ∙ read_at-rank ms name sorted
