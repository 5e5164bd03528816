-- ===== src/Harness/Runner/Status.antt =====
-- labs/harness/runner.go: what the status of a result says.
use works_on_my_whiteboard.Prelude.{
  ℕ, ◌≡◌, ◌≢◌, true, Option, none, some, List, [], ◌∷◌, ◌++◌, String, map, refl, All, GoError,
  Bool-cases, inl, inr, message, wrap,
}
use works_on_my_whiteboard.Prelude.Int.{ℤ}
use works_on_my_whiteboard.Harness.{Snapshot, AssertionResult, Diagnostic}
use works_on_my_whiteboard.Harness.Recorder.{snapshot}
use works_on_my_whiteboard.Harness.Spec.{Assertion, RunSpec, validate_run_spec}
use works_on_my_whiteboard.Harness.Runner.{
  Step, go_on, stop, run, enter, finish, judge, verdict, failures, run_assertion, check_result,
  RunResult, RunStatus, new_failed_result, append_failure, at_end,
}

-- A check of an assertion that is not nil and accepts the snapshot.
abbrev pub Holds : Snapshot → Assertion → Type 0
Holds s a = (check_result a s).0 ≡ true

-- The assertions of a specification were judged, one after the other, on the metrics of the result, and
-- all of them hold.
abbrev pub IsJudged : List Assertion → RunResult → Type 0
IsJudged assertions result =
    (map (λ r. r.id) result.assertions ≡ map (λ a. a.id) assertions)
    × All (λ (r : AssertionResult). r.passed ≡ true) result.assertions
    × All (Holds (record { metrics = result.metrics })) assertions

-- A result without an error has passed, with nothing to diagnose, and the assertions of the
-- specification hold; one with an error has failed and has a diagnostic.
abbrev pub IsSound : List Assertion → RunResult × Option GoError → Type 0
IsSound assertions (result, none) =
    (result.status ≡ RunStatus.passed) × IsJudged assertions result × (result.diagnostics ≡ [])
IsSound assertions (result, some e) = (result.status ≡ RunStatus.failed) × (result.diagnostics ≢ [])

failures-none :
    (results : List AssertionResult)
    → failures results ≡ []
    → All (λ (r : AssertionResult). r.passed ≡ true) results
unfolding failures
failures-none [] h = tt
failures-none (r ∷ results) h = elim (Bool-cases r.passed) [
  | inl holds ↦ (holds, failures-none results (cc))
  | inr fails ↦ cc
]

judged_ids :
    (s : Snapshot) (assertions : List Assertion)
    → map (λ r. r.id) (map (run_assertion s) assertions) ≡ map (λ a. a.id) assertions
unfolding run_assertion
judged_ids s [] = refl
judged_ids s (a ∷ assertions) = rw (judged_ids s assertions) refl

judged_checks :
    (s : Snapshot) (assertions : List Assertion)
    → All (λ (r : AssertionResult). r.passed ≡ true) (map (run_assertion s) assertions)
    → All (Holds s) assertions
unfolding run_assertion
judged_checks s [] h = tt
judged_checks s (a ∷ assertions) h = (h.0, judged_checks s assertions h.1)

-- A result that has failed so far, with nothing diagnosed.
abbrev IsOpen : RunResult → Type 0
IsOpen result = (result.status ≡ RunStatus.failed) × (result.diagnostics ≡ [])

more_nonempty : (xs ys : List Diagnostic) (d : Diagnostic) → xs ++ d ∷ ys ≢ []
more_nonempty [] ys d h = cc
more_nonempty (x ∷ xs) ys d h = cc

verdict-IsSound :
    (result : RunResult) (assertions : List Assertion) (ds : List Diagnostic)
    → IsOpen result
    → (ds ≡ [] → IsJudged assertions result)
    → IsSound assertions (verdict result ds)
unfolding verdict
verdict-IsSound result assertions [] h holds = (refl, holds refl, h.1)
verdict-IsSound result assertions (d ∷ ds) h holds = (h.0, more_nonempty result.diagnostics ds d)

append_failure-IsSound :
    (assertions : List Assertion) (result : RunResult) (event text : String) (e : GoError)
    → IsOpen result
    → IsSound assertions (append_failure result event text e)
append_failure-IsSound assertions result event text e h =
    (h.0, more_nonempty result.diagnostics [] _)

finish-IsSound :
    {W : Type 0} (result : RunResult) (assertions : List Assertion) (step : Step W)
    → IsOpen result
    → IsSound assertions (finish result assertions step)
unfolding finish judge
finish-IsSound result assertions (stop p event text e) h =
    append_failure-IsSound assertions (at_end result p) event text e h
finish-IsSound result assertions (go_on p) h =
    let s = snapshot p.recorder in
    let results = map (run_assertion s) assertions in
    verdict-IsSound (record (at_end result p) { assertions = results }) assertions
      (failures results) h
      (λ clean.
        let passed = failures-none results clean in
        (judged_ids s assertions, passed, judged_checks s assertions passed))

enter-IsSound :
    (assertions : List Assertion) (result : RunResult) (error : Option GoError)
    (context : Option (ℕ → Option GoError))
    (rest : (ℕ → Option GoError) → RunResult × Option GoError)
    → IsOpen result
    → ((polls : ℕ → Option GoError) → IsSound assertions (rest polls))
    → IsSound assertions (enter result error context rest)
unfolding enter
enter-IsSound assertions result (some e) context rest h sound =
    append_failure-IsSound assertions result "preflight" "run specification is invalid"
      (wrap "run preflight failed" e) h
enter-IsSound assertions result none none rest h sound =
    append_failure-IsSound assertions result "context" "context is nil"
      (message "run context is nil") h
enter-IsSound assertions result none (some polls) rest h sound = split (polls 0)
  where
    split :
        (first : Option GoError)
        → IsSound assertions (enter result none (some (λ k. first)) (λ q. rest polls))
    split none = sound polls
    split (some e) =
        append_failure-IsSound assertions result "context" "context canceled before execution"
          (wrap "run context unavailable before execution" e) h

-- A run that returns no error has status passed and no diagnostic; it lists a result for each assertion
-- of the specification, in order and under its identifier, all of them passed, and the check of each
-- assertion accepts the metrics of the result. A run that returns an error has status failed and a
-- diagnostic.
pub run-IsSound :
    {W : Type 0} (context : Option (ℕ → Option GoError)) (world : ℤ → W) (spec : RunSpec W)
    → IsSound spec.assertions (run context world spec)
unfolding run
run-IsSound context world spec =
    enter-IsSound spec.assertions (new_failed_result spec.start) (validate_run_spec spec) context _
      (refl, refl)
      (λ polls. finish-IsSound (new_failed_result spec.start) spec.assertions _ (refl, refl))
