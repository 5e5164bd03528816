-- ===== src/Evidence/Validate.antt =====
-- internal/evidence/model.go: validateRecord, with an error for each rule.
use works_on_my_whiteboard.Prelude.{
  ℕ, ◌==◌, ◌^◌, ◌*◌, Bool, true, false, not, ◌&&◌, ◌||◌, Option, none, some, List, [], ◌∷◌, ltb,
  if◌then◌else◌, String, length, any_of, is_nil, GoError, sentinel, wrap, Sentinel, check,
  ◌else_check◌,
}
use works_on_my_whiteboard.Prelude.Int.{ℤ, pos, ltb_ℤ}
use works_on_my_whiteboard.Prelude.Text.{codes, is_blank, is_space}
use works_on_my_whiteboard.Prelude.Dict.{str_eq}
use works_on_my_whiteboard.GoTime.{second}
use works_on_my_whiteboard.Harness.Spec.{is_stable_id}
use works_on_my_whiteboard.Validator.Schema.{is_lab_metric_id}
use works_on_my_whiteboard.Evidence.{
  Record, Environment, Measurement, Fault, Assertion, Diagnostic, Time, is_commit, is_digest,
  is_diagnostic_code, is_platform_id, is_go_version, valid_attempt_id,
}
use works_on_my_whiteboard.Evidence.Whitespace.{normalize_whitespace}

abbrev pub invalid : String → GoError
invalid reason = wrap reason (sentinel Sentinel.invalid_record)

abbrev pub is_present : {A : Type 0} → Option A → Bool
is_present none = false
is_present (some a) = true

abbrev pub items : {A : Type 0} → Option (List A) → List A
items none = []
items (some values) = values

-- January 1 of the year 1, at which IsZero holds.
abbrev pub zero_time : ℕ
zero_time = 2 ^ 63 * second

abbrev pub check_identity : String → String → Bool → Option GoError
check_identity name value required =
    check (not (str_eq value "" && not required) && not (is_stable_id value)) (invalid name)

abbrev pub is_one_of : List String → String → Bool
is_one_of closed value = any_of (λ known. str_eq value known) closed

unfoldable pub check_role : Record → Option GoError
check_role source =
    if str_eq source.role "baseline" || str_eq source.role "variant"
    then check (not (str_eq source.adapter_id "")) (invalid "non-adapter role has adapter_id")
    else if str_eq source.role "adapter"
    then check
        (str_eq source.adapter_id "" || not (str_eq source.adapter_id source.implementation_id))
        (invalid "adapter role identity is inconsistent")
    else some (invalid "role is not closed")

-- reflect.DeepEqual of two maps that are not nil.
abbrev pub same_int : ℤ → ℤ → Bool
same_int a b = not (ltb_ℤ a b) && not (ltb_ℤ b a)

abbrev pub has_entry : List (String × ℤ) → String × ℤ → Bool
has_entry dict entry = any_of (λ other. str_eq other.0 entry.0 && same_int other.1 entry.1) dict

abbrev pub all_entries : List (String × ℤ) → List (String × ℤ) → Bool
all_entries [] dict = true
all_entries (entry ∷ entries) dict = has_entry dict entry && all_entries entries dict

abbrev pub same_parameters : Option (List (String × ℤ)) → Option (List (String × ℤ)) → Bool
same_parameters none other = false
same_parameters (some dict) none = false
same_parameters (some dict) (some other) = length dict == length other && all_entries dict other

unfoldable pub check_faults : List String → List Fault → Option GoError
check_faults seen [] = none
check_faults seen (fault ∷ faults) =
    check (not (is_stable_id fault.id) || ltb_ℤ fault.at (pos 0) || ltb_ℤ fault.duration (pos 0))
      (invalid "fault is invalid")
    else_check check (is_one_of seen fault.id) (invalid "fault ID is duplicated")
    else_check check_faults (fault.id ∷ seen) faults

-- s != strings.TrimSpace(s), of a text that is not blank.
abbrev pub ends_in_space : List ℕ → Bool
ends_in_space [] = false
ends_in_space (c ∷ []) = is_space c
ends_in_space (c ∷ d ∷ cs) = ends_in_space (d ∷ cs)

abbrev pub starts_with_space : List ℕ → Bool
starts_with_space [] = false
starts_with_space (c ∷ cs) = is_space c

unfoldable pub check_measurements : List (String × Measurement) → Option GoError
check_measurements [] = none
check_measurements (entry ∷ entries) =
    check
      (not (is_lab_metric_id entry.0)
        || is_blank entry.1.unit
        || starts_with_space (codes entry.1.unit)
        || ends_in_space (codes entry.1.unit))
      (invalid "measurement is invalid")
    else_check check_measurements entries

unfoldable pub check_assertions : String → List String → List Assertion → Option GoError
check_assertions status seen [] = none
check_assertions status seen (assertion ∷ assertions) =
    check (not (is_stable_id assertion.id)) (invalid "assertion ID is invalid")
    else_check check (is_one_of seen assertion.id) (invalid "assertion ID is duplicated")
    else_check check (str_eq status "passed" && not assertion.passed)
        (invalid "passed record contains a false assertion")
    else_check check_assertions status (assertion.id ∷ seen) assertions

unfoldable pub check_diagnostics : List Diagnostic → Option GoError
check_diagnostics [] = none
check_diagnostics (diagnostic ∷ diagnostics) =
    check
      (not (is_diagnostic_code diagnostic.code)
        || not (str_eq diagnostic.event "") && not (is_stable_id diagnostic.event)
        || is_blank diagnostic.message)
      (invalid "diagnostic is invalid")
    else_check check_diagnostics diagnostics

unfoldable pub check_limitations : List String → List String → Option GoError
check_limitations seen [] = none
check_limitations seen (limitation ∷ limitations) =
    check (is_blank limitation) (invalid "limitation is blank")
    else_check check (is_one_of seen limitation) (invalid "limitation is duplicated")
    else_check check_limitations (limitation ∷ seen) limitations

unfoldable pub check_environment : Environment → Option GoError
check_environment e =
    check
      (ltb 128 (length (codes e.go_version))
        || not (is_go_version e.go_version)
        || not (str_eq (normalize_whitespace e.go_version) e.go_version)
        || not (str_eq e.cpu "unknown")
        || not (is_platform_id e.os)
        || not (is_platform_id e.arch)
        || not (ltb_ℤ (pos 0) e.logical_cpus))
      (invalid "environment is invalid")

abbrev pub is_zero : Time → Bool
is_zero t = t.instant == zero_time

unfoldable pub check_times : Record → Option GoError
check_times source =
    check
      (is_zero source.started_at
        || is_zero source.finished_at
        || not source.started_at.is_utc
        || not source.finished_at.is_utc
        || ltb source.finished_at.instant source.started_at.instant)
      (invalid "timestamps must be ordered canonical UTC values")

-- The rules from the version to the deadline.
unfoldable pub check_head : Record → Option GoError
check_head source =
    check (not (source.schema_version == 1)) (invalid "schema_version")
    else_check check (not (valid_attempt_id source.id "run-")) (invalid "invalid attempt ID")
    else_check check (not (valid_attempt_id source.run_set_id "set-"))
        (invalid "invalid run-set ID")
    else_check check_identity "lab_id" source.lab_id true
    else_check check_identity "required_run_id" source.required_run_id true
    else_check check_identity "binding_id" source.binding_id true
    else_check check_identity "claim_id" source.claim_id true
    else_check check_identity "implementation_id" source.implementation_id true
    else_check check_identity "adapter_id" source.adapter_id false
    else_check check_identity "workload.id" source.workload.id true
    else_check check (not (is_one_of ("smoke" ∷ "deep" ∷ []) source.profile))
        (invalid "profile is not closed")
    else_check check_role source
    else_check check
        (not (
          is_one_of ("passed" ∷ "failed" ∷ "skipped" ∷ "flaky" ∷ "inconclusive" ∷ [])
            source.status))
        (invalid "status is not closed")
    else_check check (not (is_commit source.source_commit)) (invalid "source_commit is invalid")
    else_check check (not (is_digest source.input_digest)) (invalid "input_digest is invalid")
    else_check check (is_blank source.hypothesis || is_blank source.conclusion)
        (invalid "hypothesis and conclusion must be nonblank")
    else_check check (not (ltb_ℤ (pos 0) source.deadline)) (invalid "deadline must be positive")

-- The rules from the timestamps to the environment. Texts are valid UTF-8, so the tests of
-- utf8.ValidString pass.
unfoldable pub check_body : Record → Option GoError
check_body source =
    check_times source
    else_check check (not (same_parameters source.workload.parameters source.parameters))
        (invalid "parameters must be equal explicit maps")
    else_check check
        (not (is_present source.faults)
          || not (is_present source.measurements)
          || not (is_present source.assertions)
          || not (is_present source.diagnostics)
          || not (is_present source.limitations))
        (invalid "maps and slices must be explicit")
    else_check check_faults [] (items source.faults)
    else_check check_measurements (items source.measurements)
    else_check check_assertions source.status [] (items source.assertions)
    else_check check (not (str_eq source.status "passed") && is_nil (items source.diagnostics))
        (invalid "non-passed record needs a diagnostic")
    else_check check_diagnostics (items source.diagnostics)
    else_check check_limitations [] (items source.limitations)
    else_check check_environment source.environment

unfoldable pub check_content_digest : String → Bool → Option GoError
check_content_digest digest true =
    check (not (is_digest digest))
      (wrap "content_digest is invalid" (sentinel Sentinel.invalid_content_digest))
check_content_digest digest false =
    check (not (str_eq digest "")) (invalid "unsealed content_digest must be empty")

unfoldable pub validate_record : Record → Bool → Option GoError
validate_record source require_digest =
    check_head source
    else_check check_body source
    else_check check_content_digest source.content_digest require_digest
