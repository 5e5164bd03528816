-- ===== src/Harness/Runner/Schedule.antt =====
-- labs/harness/runner.go: the order in which a run executes its events.
use works_on_my_whiteboard.Prelude.{
  ◌+◌, ◌≤◌, ◌<◌, ◌≡◌, true, false, List, [], ◌∷◌, arith, All, Bool-cases, inl, inr, ◌⊎◌, none,
}
use mathlib.Core.List.{Perm}
use works_on_my_whiteboard.Prelude.Int.{pos_part, neg_part}
use works_on_my_whiteboard.Prelude.Sort.{
  stable_sort, insert_sorted, IsSorted, IsWeakOrder, stable_sort-IsSorted, stable_sort-perm,
  All-insert_sorted, All-stable_sort,
}
use works_on_my_whiteboard.Harness.Spec.{Event, RunSpec, same_key, validate_run_spec}
use works_on_my_whiteboard.GoTime.{time_limit, max_duration}
use works_on_my_whiteboard.Harness.Spec.Preflight.{IsUnrepeated, validate_run_spec-IsReady}
use works_on_my_whiteboard.Harness.Runner.{event_lt}

-- The offset of an event, as a difference of two numbers.
pub after_of-event_lt :
    {W : Type 0} (a b : Event W)
    → event_lt a b ≡ false
    → (pos_part b.at + neg_part a.at < pos_part a.at + neg_part b.at)
      ⊎ ((pos_part b.at + neg_part a.at ≡ pos_part a.at + neg_part b.at)
          × ((b.phase < a.phase) ⊎ ((b.phase ≡ a.phase) × (b.sequence ≤ a.sequence))))
unfolding event_lt
after_of-event_lt a b h = ground arith

event_lt-of_after :
    {W : Type 0} (a b : Event W)
    → (pos_part b.at + neg_part a.at < pos_part a.at + neg_part b.at)
      ⊎ ((pos_part b.at + neg_part a.at ≡ pos_part a.at + neg_part b.at)
          × ((b.phase < a.phase) ⊎ ((b.phase ≡ a.phase) × (b.sequence ≤ a.sequence))))
    → event_lt a b ≡ false
unfolding event_lt
event_lt-of_after a b h = ground arith

event_lt-asym : {W : Type 0} (a b : Event W) → event_lt a b ≡ true → event_lt b a ≡ false
unfolding event_lt
event_lt-asym a b h = ground arith

event_lt-neg_trans :
    {W : Type 0} (a b c : Event W)
    → event_lt a b ≡ false
    → event_lt b c ≡ false
    → event_lt a c ≡ false
event_lt-neg_trans a b c h k =
    let first = after_of-event_lt a b h in
    let second = after_of-event_lt b c k in event_lt-of_after a c (omega arith)

pub event_lt-IsWeakOrder : {W : Type 0} → IsWeakOrder (event_lt {W = W})
event_lt-IsWeakOrder = record {
  asym = λ a b h. event_lt-asym a b h;
  neg_trans = λ a b c h k. event_lt-neg_trans a b c h k;
}

unequal-ordered :
    {W : Type 0} (a b : Event W) → same_key a b ≡ false → event_lt b a ≡ false → event_lt a b ≡ true
unfolding event_lt
unequal-ordered a b h k = ground arith

same_key-sym : {W : Type 0} (a b : Event W) → same_key a b ≡ false → same_key b a ≡ false
same_key-sym a b h = ground arith

insert_sorted-IsUnrepeated :
    {W : Type 0} (e : Event W) (es : List (Event W))
    → All (λ f. same_key e f ≡ false) es
    → IsUnrepeated es
    → IsUnrepeated (insert_sorted event_lt e es)
unfolding insert_sorted
insert_sorted-IsUnrepeated e [] apart h = (tt, tt)
insert_sorted-IsUnrepeated e (f ∷ es) apart h = elim (Bool-cases (event_lt f e)) [
  | inl less ↦ rw less (
    All-insert_sorted event_lt (λ g. same_key f g ≡ false) e es (same_key-sym e f apart.0) h.0,
    insert_sorted-IsUnrepeated e es apart.1 h.1,
  )
  | inr not_less ↦ rw not_less (apart, h)
]

stable_sort-IsUnrepeated :
    {W : Type 0} (es : List (Event W)) → IsUnrepeated es → IsUnrepeated (stable_sort event_lt es)
unfolding stable_sort
stable_sort-IsUnrepeated [] h = tt
stable_sort-IsUnrepeated (e ∷ es) h =
    insert_sorted-IsUnrepeated e (stable_sort event_lt es)
      (All-stable_sort event_lt (λ f. same_key e f ≡ false) es h.0)
      (stable_sort-IsUnrepeated es h.1)

-- Each event comes strictly before those after it.
abbrev pub IsStrict : {W : Type 0} → List (Event W) → Type 0
IsStrict [] = Unit
IsStrict (e ∷ es) = All (λ f. event_lt e f ≡ true) es × IsStrict es

sorted-IsStrict :
    {W : Type 0} (es : List (Event W)) → IsSorted event_lt es → IsUnrepeated es → IsStrict es
sorted-IsStrict [] sorted apart = tt
sorted-IsStrict (e ∷ es) sorted apart =
    (all_after e es sorted.0 apart.0, sorted-IsStrict es sorted.1 apart.1)
  where
    all_after :
        {W : Type 0} (e : Event W) (es : List (Event W))
        → All (λ f. event_lt f e ≡ false) es
        → All (λ f. same_key e f ≡ false) es
        → All (λ f. event_lt e f ≡ true) es
    all_after e [] sorted apart = tt
    all_after e (f ∷ es) sorted apart =
        (unequal-ordered e f apart.0 sorted.0, all_after e es sorted.1 apart.1)

-- The schedule of a specification that passes the preflight, with the start and the deadline in the
-- range of their types, is its events in another order, each strictly before those after it by
-- offset, phase and sequence.
pub schedule-IsStrict :
    {W : Type 0} (spec : RunSpec W)
    → spec.start < time_limit
    → pos_part spec.deadline ≤ max_duration
    → validate_run_spec spec ≡ none
    → Perm (stable_sort event_lt spec.events) spec.events
      × IsStrict (stable_sort event_lt spec.events)
schedule-IsStrict spec early short passed =
    let (ready, apart) = validate_run_spec-IsReady spec early short passed in
    (
      stable_sort-perm event_lt spec.events,
      sorted-IsStrict (stable_sort event_lt spec.events)
          (stable_sort-IsSorted event_lt spec.events event_lt-IsWeakOrder)
          (stable_sort-IsUnrepeated spec.events apart),
    )
