-- ===== src/Harness/Spec.antt =====
-- labs/harness/types.go and runner.go: the specification of a run and its preflight.
pub mod Preflight
use works_on_my_whiteboard.Prelude.{
  ℕ, ◌+◌, Bool, true, false, not, ◌&&◌, ◌||◌, Option, none, some, List, [], ◌∷◌, ltb, leb, ◌==◌,
  if◌then◌else◌, String, GoError, message, check, ◌else_check◌,
}
use works_on_my_whiteboard.Prelude.Int.{ℤ, pos, pos_part, neg_part, ltb_ℤ, ◌≤ℤ◌}
use works_on_my_whiteboard.Prelude.Dict.{str_eq}
use works_on_my_whiteboard.Prelude.Text.{codes, is_blank}
use works_on_my_whiteboard.GoTime
use works_on_my_whiteboard.Harness.{Snapshot}
use works_on_my_whiteboard.Harness.Recorder.{Recorder}

-- The Phase constants, of the type uint8.
abbrev pub phase_fault : ℕ
phase_fault = 0

abbrev pub phase_request : ℕ
phase_request = 1

abbrev pub phase_observe : ℕ
phase_observe = 2

-- What an action does at a reading of the clock, to the recorder and to the state that it reaches
-- besides: the random source, what it closes over, and the context.
abbrev pub Action : Type 0 → Type 0
Action W = ℕ → W → Recorder → (W × Recorder) × Option GoError

-- `apply` and `check` may be nil.
pub record Event (W : Type 0) : Type 0 where
  pub at : ℤ
  pub phase : ℕ
  pub sequence : ℕ
  pub name : String
  pub apply : Option (Action W)

pub record Assertion : Type 0 where
  pub id : String
  pub check : Option (Snapshot → Bool × String)

pub record RunSpec (W : Type 0) : Type 0 where
  pub lab_id : String
  pub required_run_id : String
  pub binding_id : String
  pub claim_id : String
  pub implementation_id : String
  pub adapter_id : String
  pub seed : ℤ
  pub start : ℕ
  pub deadline : ℤ
  pub parameters : List (String × ℤ)
  pub events : List (Event W)
  pub assertions : List Assertion

-- stableIDPattern, ^[a-z][a-z0-9-]*$.
abbrev pub is_lower : ℕ → Bool
is_lower c = leb 97 c && leb c 122

abbrev pub is_id_rest : List ℕ → Bool
is_id_rest [] = true
is_id_rest (c ∷ cs) = (is_lower c || leb 48 c && leb c 57 || c == 45) && is_id_rest cs

abbrev pub is_id_codes : List ℕ → Bool
is_id_codes [] = false
is_id_codes (c ∷ cs) = is_lower c && is_id_rest cs

unfoldable pub is_stable_id : String → Bool
is_stable_id s = is_id_codes (codes s)

-- The preflight of one identity.
abbrev pub check_identity : String → String → Bool → Option GoError
check_identity label value required =
    check (not (str_eq value "" && not required) && not (is_stable_id value)) (message label)

unfoldable pub check_identities : {W : Type 0} → RunSpec W → Option GoError
check_identities spec =
    check_identity "lab ID" spec.lab_id true
    else_check check_identity "required run ID" spec.required_run_id true
    else_check check_identity "binding ID" spec.binding_id true
    else_check check_identity "claim ID" spec.claim_id true
    else_check check_identity "implementation ID" spec.implementation_id true
    else_check check_identity "adapter ID" spec.adapter_id false

-- An offset that is not negative.
unfoldable pub logical_event_time_representable : ℕ → ℕ → Bool
logical_event_time_representable start offset =
    let target = GoTime.add start offset in
    if offset == 0
    then target == start
    else ltb start target && GoTime.subtract target offset == start

abbrev pub is_none : {A : Type 0} → Option A → Bool
is_none none = true
is_none (some a) = false

-- Equal schedule keys.
abbrev pub same_key : {W : Type 0} → Event W → Event W → Bool
same_key e f =
    (pos_part e.at == pos_part f.at && neg_part e.at == neg_part f.at)
    && e.phase == f.phase
    && e.sequence == f.sequence

abbrev pub repeats_key : {W : Type 0} → List (Event W) → Event W → Bool
repeats_key [] e = false
repeats_key (f ∷ seen) e = same_key f e || repeats_key seen e

-- The preflight of one event, after those seen before it.
unfoldable pub check_event : {W : Type 0} → ℕ → ℤ → List (Event W) → Event W → Option GoError
check_event start deadline seen event =
    check (ltb_ℤ event.at (pos 0)) (message "event offset must be non-negative")
    else_check check (ltb_ℤ deadline event.at) (message "event offset exceeds deadline")
    else_check check (not (logical_event_time_representable start (pos_part event.at)))
        (message "event offset overflows logical time")
    else_check check
        (not (event.phase == phase_fault)
          && not (event.phase == phase_request)
          && not (event.phase == phase_observe))
        (message "event has invalid phase")
    else_check check (is_blank event.name) (message "event name must be nonblank")
    else_check check (is_none event.apply) (message "event action is nil")
    else_check check (repeats_key seen event) (message "event repeats schedule key")

unfoldable pub check_events :
    {W : Type 0} → ℕ → ℤ → List (Event W) → List (Event W) → Option GoError
check_events start deadline seen [] = none
check_events start deadline seen (event ∷ events) =
    check_event start deadline seen event
    else_check check_events start deadline (event ∷ seen) events

abbrev pub repeats_id : List Assertion → Assertion → Bool
repeats_id [] a = false
repeats_id (b ∷ seen) a = str_eq b.id a.id || repeats_id seen a

unfoldable pub check_assertion : List Assertion → Assertion → Option GoError
check_assertion seen assertion =
    check (not (is_stable_id assertion.id)) (message "assertion ID must match")
    else_check check (is_none assertion.check) (message "assertion check is nil")
    else_check check (repeats_id seen assertion) (message "assertion ID is duplicated")

unfoldable pub check_assertions : List Assertion → List Assertion → Option GoError
check_assertions seen [] = none
check_assertions seen (assertion ∷ assertions) =
    check_assertion seen assertion else_check check_assertions (assertion ∷ seen) assertions

unfoldable pub validate_run_spec : {W : Type 0} → RunSpec W → Option GoError
validate_run_spec spec =
    check_identities spec
    else_check check (not (ltb_ℤ (pos 0) spec.deadline)) (message "deadline must be positive")
    else_check check_events spec.start spec.deadline [] spec.events
    else_check check_assertions [] spec.assertions
