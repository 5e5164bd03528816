-- ===== src/Harness/Runner/Play.antt =====
-- labs/harness/runner.go: a run without interruptions, and what its status says.
use works_on_my_whiteboard.Prelude.{
  ℕ, ◌+◌, ◌≤◌, ◌<◌, ◌≡◌, false, Option, none, some, List, [], ◌∷◌, refl, arith, All, All-map,
  GoError, wrap, ok, ap, sym, subst,
}
use works_on_my_whiteboard.Prelude.Int.{ℤ, pos, negsuc, pos_part, neg_part}
use works_on_my_whiteboard.Prelude.Sort.{
  stable_sort, IsSorted, stable_sort-IsSorted, All-stable_sort,
}
use works_on_my_whiteboard.GoTime
use works_on_my_whiteboard.GoTime.{time_limit, max_duration, add_exact}
use works_on_my_whiteboard.Harness.Spec.{Event, Action, RunSpec, validate_run_spec}
use works_on_my_whiteboard.Harness.Spec.Preflight.{IsReady, validate_run_spec-IsReady}
use works_on_my_whiteboard.Harness.Runner.{
  Progress, Step, go_on, stop, and_then, call, after_call, at_time, round, run_events, advance,
  event_lt, run, finish, new_failed_result, first_progress, enter,
}
use works_on_my_whiteboard.Harness.Runner.Schedule.{event_lt-IsWeakOrder, after_of-event_lt}

advance-later : (now next : ℕ) → now ≤ next → advance now next ≡ ok next
unfolding advance
advance-later now next h = ground arith

module _ {W : Type 0} where
  played : Event W → Progress W × Option GoError → Step W
  played e (p, none) = go_on p
  played e (p, some error) = stop p e.name "action failed" (wrap "event failed" error)

  -- The events one after the other, each at exactly its time, up to the first action that fails.
  unfoldable pub play : ℕ → List (Event W) → Progress W → Step W
  unfolding played
  play start [] p = go_on p
  play start (e ∷ es) p =
      and_then (played e (call e (record p { now = start + pos_part e.at }))) (λ q. play start es q)

  shift-ready :
      (start : ℕ) (e : Event W) → IsReady start e → GoTime.shift start e.at ≡ start + pos_part e.at
  unfolding GoTime.shift
  shift-ready start e ready = split e.at ready.0 ready.1
    where
      split :
          (at : ℤ)
          → neg_part at ≡ 0
          → start + pos_part at < time_limit
          → GoTime.shift start at ≡ start + pos_part at
      split (pos d) h early = add_exact start d early
      split (negsuc d) h early = omega arith

  after_call-played :
      (e : Event W) (r : Progress W × Option GoError) → after_call none e r ≡ played e r
  unfolding after_call played
  after_call-played e (p, none) = refl
  after_call-played e (p, some error) = refl

  round-played :
      (start : ℕ) (e : Event W) (p : Progress W)
      → IsReady start e
      → p.now ≤ start + pos_part e.at
      → round none none start e p ≡ played e (call e (record p { now = start + pos_part e.at }))
  unfolding round at_time
  round-played start e p ready later =
      rw (shift-ready start e ready, advance-later p.now (start + pos_part e.at) later)
        (after_call-played e (call e (record p { now = start + pos_part e.at })))

  call-now : (e : Event W) (p : Progress W) → (call e p).0.now ≡ p.now
  unfolding call
  call-now e p = split e.apply
    where
      split : (apply : Option (Action W)) → (call (record e { apply = apply }) p).0.now ≡ p.now
      split none = refl
      split (some action) = refl

  -- The clock does not pass an event that comes later in the schedule.
  abbrev IsAhead : ℕ → ℕ → Event W → Type 0
  IsAhead start now e = now ≤ start + pos_part e.at

  sorted-IsAhead :
      (start : ℕ) (e : Event W) (es : List (Event W))
      → IsReady start e
      → All (IsReady start) es
      → All (λ f. event_lt f e ≡ false) es
      → All (IsAhead start (start + pos_part e.at)) es
  sorted-IsAhead start e [] ready all_ready sorted = tt
  sorted-IsAhead start e (f ∷ es) ready all_ready sorted =
      let order = after_of-event_lt f e sorted.0 in
      let this = all_ready.0 in (ground arith, sorted-IsAhead start e es ready all_ready.1 sorted.1)

  run_events-play :
      (polls : ℕ → Option GoError) (k start : ℕ) (es : List (Event W)) (p : Progress W)
      → ((i : ℕ) → polls i ≡ none)
      → All (IsReady start) es
      → IsSorted event_lt es
      → All (IsAhead start p.now) es
      → run_events polls k start es p ≡ play start es p
  unfolding run_events play
  run_events-play polls k start [] p alive ready sorted ahead = refl
  run_events-play polls k start (e ∷ es) p alive ready sorted ahead =
      let r = call e (record p { now = start + pos_part e.at }) in
      rw (alive k, alive (k + 1), round-played start e p ready.0 ahead.0)
        (rest r (call-now e (record p { now = start + pos_part e.at })) (λ q now.
          run_events-play polls (k + 2) start es q alive ready.1 sorted.1 (
            subst (λ (t : ℕ). All (IsAhead start t) es) (sym now)
              (sorted-IsAhead start e es ready.0 ready.1 sorted.0))))
    where
      rest :
          (r : Progress W × Option GoError)
          → r.0.now ≡ start + pos_part e.at
          → ((q : Progress W)
              → q.now ≡ start + pos_part e.at
              → run_events polls (k + 2) start es q ≡ play start es q)
          → and_then (played e r) (λ q. run_events polls (k + 2) start es q)
            ≡ and_then (played e r) (λ q. play start es q)
      rest (q, some error) now others = refl
      rest (q, none) now others = others q now

  -- A specification that passes the preflight, with the start and the deadline in the range of their
  -- types, runs under a context that is never cancelled as its events in the order of the schedule,
  -- each at exactly its time, up to the first action that fails: the clock is never refused.
  pub run-play :
      (polls : ℕ → Option GoError) (world : ℤ → W) (spec : RunSpec W)
      → ((i : ℕ) → polls i ≡ none)
      → spec.start < time_limit
      → pos_part spec.deadline ≤ max_duration
      → validate_run_spec spec ≡ none
      → run (some polls) world spec
        ≡ finish (new_failed_result spec.start) spec.assertions (
            play spec.start
              (stable_sort event_lt spec.events)
              (first_progress (world spec.seed) spec.start))
  unfolding run enter
  run-play polls world spec alive early short passed =
      let (ready, unrepeated) = validate_run_spec-IsReady spec early short passed in
      let all_ready = All-stable_sort event_lt (IsReady spec.start) spec.events ready in
      rw passed (
        rw (alive 0) (
          ap (λ x. finish (new_failed_result spec.start) spec.assertions x)
            (run_events-play polls 1 spec.start (stable_sort event_lt spec.events)
              (first_progress (world spec.seed) spec.start) alive all_ready
              (stable_sort-IsSorted event_lt spec.events event_lt-IsWeakOrder)
              (All-map (λ e h. omega arith) (stable_sort event_lt spec.events) all_ready))))
