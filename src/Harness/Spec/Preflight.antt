-- ===== src/Harness/Spec/Preflight.antt =====
-- labs/harness/runner.go: what the preflight of a run ensures.
use works_on_my_whiteboard.Prelude.{
  ℕ, ◌+◌, ◌≤◌, ◌<◌, ◌≡◌, ◌↔◌, true, false, not, none, List, [], ◌∷◌, ltb, refl, sym, arith, All,
  All-map, check-none, else_check-none, Bool-cases, inl, inr,
}
use works_on_my_whiteboard.Prelude.Int.{ℤ, pos, pos_part, neg_part, ltb_ℤ}
use works_on_my_whiteboard.GoTime
use works_on_my_whiteboard.GoTime.{time_limit, max_duration, second}
use works_on_my_whiteboard.Harness.Spec.{
  Event, RunSpec, logical_event_time_representable, check_event, check_events, validate_run_spec,
  is_none, same_key, repeats_key,
}

-- Past the end the saturated sum is too early.
past_end :
    (start d : ℕ)
    → d ≤ max_duration
    → time_limit ≤ start + d
    → GoTime.subtract (GoTime.add start d) d < start
unfolding GoTime.add GoTime.subtract
past_end start d short late = ground arith

before_end :
    (start d : ℕ)
    → start + d < time_limit
    → (GoTime.add start d ≡ start + d) × (GoTime.subtract (GoTime.add start d) d ≡ start)
unfolding GoTime.add GoTime.subtract
before_end start d early = ground arith

-- For an instant and a duration that 64 bits hold, the test of logicalEventTimeRepresentable, by
-- arithmetic that saturates, is whether the exact sum is an instant that time.Time represents.
pub representable_iff :
    (start offset : ℕ)
    → start < time_limit
    → offset ≤ max_duration
    → (logical_event_time_representable start offset ≡ true) ↔ (start + offset < time_limit)
unfolding logical_event_time_representable
representable_iff start offset early short = elim (Bool-cases (ltb (start + offset) time_limit)) [
  | inl fits ↦ ground (arith, before_end start offset)
  | inr late ↦ ground (arith, past_end start offset short)
]

-- What the preflight ensures of an event: the clock reaches it, and it has an action.
abbrev pub IsReady : {W : Type 0} → ℕ → Event W → Type 0
IsReady start e =
    (neg_part e.at ≡ 0) × (start + pos_part e.at < time_limit) × (is_none e.apply ≡ false)

check_event-IsReady :
    {W : Type 0} (start : ℕ) (deadline : ℤ) (seen : List (Event W)) (e : Event W)
    → start < time_limit
    → pos_part deadline ≤ max_duration
    → check_event start deadline seen e ≡ none
    → IsReady start e × (repeats_key seen e ≡ false)
unfolding check_event
check_event-IsReady start deadline seen e early short passed =
    let (not_negative, p1) = else_check-none _ _ passed in
    let (in_deadline, p2) = else_check-none _ _ p1 in
    let (fits, p3) = else_check-none _ _ p2 in
    let (known_phase, p4) = else_check-none _ _ p3 in
    let (named, p5) = else_check-none _ _ p4 in
    let (has_action, unrepeated) = else_check-none _ _ p5 in
    let from_start : ltb_ℤ e.at (pos 0) ≡ false = check-none _ _ not_negative in
    let to_deadline : ltb_ℤ deadline e.at ≡ false = check-none _ _ in_deadline in
    let holds : not (logical_event_time_representable start (pos_part e.at)) ≡ false =
      check-none _ _ fits in
    let acts : is_none e.apply ≡ false = check-none _ _ has_action in
    let reached : start + pos_part e.at < time_limit =
      (representable_iff start (pos_part e.at) early (ground arith)).0 (ground arith) in
    ((ground arith, reached, acts), check-none _ _ unrepeated)

-- No event repeats the schedule key of an earlier one.
abbrev pub IsUnrepeated : {W : Type 0} → List (Event W) → Type 0
IsUnrepeated [] = Unit
IsUnrepeated (e ∷ es) = All (λ f. same_key e f ≡ false) es × IsUnrepeated es

repeats_key-split :
    {W : Type 0} (e : Event W) (seen : List (Event W)) (f : Event W)
    → repeats_key (e ∷ seen) f ≡ false
    → (same_key e f ≡ false) × (repeats_key seen f ≡ false)
repeats_key-split e seen f h = elim (Bool-cases (same_key e f)) [
  | inl same ↦ cc (h, same)
  | inr other ↦ (other, rw (sym (h)) (rw other refl))
]

pub check_events-IsReady :
    {W : Type 0} (start : ℕ) (deadline : ℤ) (seen es : List (Event W))
    → start < time_limit
    → pos_part deadline ≤ max_duration
    → check_events start deadline seen es ≡ none
    → All (IsReady start) es × All (λ f. repeats_key seen f ≡ false) es × IsUnrepeated es
unfolding check_events
check_events-IsReady start deadline seen [] early short passed = (tt, tt, tt)
check_events-IsReady start deadline seen (e ∷ es) early short passed =
    let (this, others) = else_check-none _ _ passed in
    let (ready, unrepeated) = check_event-IsReady start deadline seen e early short this in
    let (all_ready, apart, rest) =
      check_events-IsReady start deadline (e ∷ seen) es early short others in
    (
      (ready, all_ready),
      (unrepeated, All-map (λ f h. (repeats_key-split e seen f h).1) es apart),
      (All-map (λ f h. (repeats_key-split e seen f h).0) es apart, rest),
    )

-- The events of a specification that passes the preflight, with the start and the deadline in the
-- range of their types, are ready and have schedule keys of their own.
pub validate_run_spec-IsReady :
    {W : Type 0} (spec : RunSpec W)
    → spec.start < time_limit
    → pos_part spec.deadline ≤ max_duration
    → validate_run_spec spec ≡ none
    → All (IsReady spec.start) spec.events × IsUnrepeated spec.events
unfolding validate_run_spec
validate_run_spec-IsReady spec early short passed =
    let (identities, p1) = else_check-none _ _ passed in
    let (deadline, p2) = else_check-none _ _ p1 in
    let (events, assertions) = else_check-none _ _ p2 in
    let (ready, seen, unrepeated) =
      check_events-IsReady spec.start spec.deadline [] spec.events early short events in
    (ready, unrepeated)
