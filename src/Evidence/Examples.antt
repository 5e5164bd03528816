-- ===== src/Evidence/Examples.antt =====
-- A run of internal/evidence/model.go at a concrete record.
use works_on_my_whiteboard.Prelude.{◌≡◌, some, true, false, [], ◌∷◌, String, refl, Result, ok}
use works_on_my_whiteboard.Prelude.Int.{pos}
use works_on_my_whiteboard.Prelude.Text.{join_text, is_blank}
use works_on_my_whiteboard.GoTime.{unix_epoch}
use works_on_my_whiteboard.Harness.Spec.{is_stable_id}
use works_on_my_whiteboard.Validator.Schema.{is_lab_metric_id}
use works_on_my_whiteboard.Evidence.{
  Record, is_commit, is_digest, is_diagnostic_code, is_platform_id, is_go_version, valid_attempt_id,
}
use works_on_my_whiteboard.Evidence.Whitespace.{normalize_whitespace, normalize_from}
use works_on_my_whiteboard.Evidence.Validate.{
  check_role, check_faults, check_measurements, check_assertions, check_diagnostics,
  check_limitations, check_environment, check_times, check_head, check_body, check_content_digest,
  validate_record,
}
use works_on_my_whiteboard.Evidence.Seal.{
  canonical_time, normalize_environment, clone_and_normalize, calculate_content_digest, seal,
  encode, map_result, seal-encode,
}

abbrev zeros : String
zeros = "0000000000000000000000000000000000000000000000000000000000000000"

abbrev run_record : Record
run_record = record {
  schema_version = 1;
  id = "run-20240229T235959.999Z-00112233445566778899aabbccddeeff";
  run_set_id = "set-20240229T235959.999Z-00112233445566778899aabbccddeeff";
  lab_id = "bucket-lab";
  required_run_id = "burst-run";
  binding_id = "burst-principle";
  claim_id = "refills";
  role = "baseline";
  implementation_id = "integer";
  adapter_id = "";
  profile = "smoke";
  hypothesis = "Tokens come back.";
  workload = record { id = "burst"; parameters = some (("capacity", pos 3) ∷ []) };
  faults = some [];
  status = "passed";
  source_commit = "0123456789abcdef0123456789abcdef01234567";
  input_digest = "sha256:0000000000000000000000000000000000000000000000000000000000000000";
  environment = record {
    go_version = " go1.22  linux ";
    os = "linux";
    arch = "amd64";
    cpu = "unknown";
    logical_cpus = pos 8;
  };
  seed = pos 1;
  deadline = pos 1000;
  started_at = record { instant = unix_epoch; is_utc = false };
  finished_at = record { instant = unix_epoch; is_utc = true };
  events_executed = 4;
  parameters = some (("capacity", pos 3) ∷ []);
  measurements = some (("tokens", record { unit = "tokens"; value = pos 3 }) ∷ []);
  assertions = some (record { id = "exact"; passed = true; message = "" } ∷ []);
  diagnostics = some [];
  conclusion = "It holds.";
  limitations = some ("One process." ∷ []);
  content_digest = "";
}

abbrev json_of : Record → Result String
json_of source = ok source.id

abbrev sum_of : String → String
sum_of compact = zeros

sum_of_hex : (compact : String) → is_digest (join_text "sha256:" (sum_of compact)) ≡ true
unfolding is_digest
sum_of_hex compact = refl

abbrev sealed_record : Record
sealed_record = record run_record {
  environment = record {
    go_version = "go1.22 linux";
    os = "linux";
    arch = "amd64";
    cpu = "unknown";
    logical_cpus = pos 8;
  };
  started_at = record { instant = unix_epoch; is_utc = true };
  content_digest = "sha256:0000000000000000000000000000000000000000000000000000000000000000";
}

run_record_seals : seal json_of sum_of run_record ≡ ok sealed_record
unfolding seal calculate_content_digest clone_and_normalize normalize_environment canonical_time
    normalize_whitespace normalize_from validate_record check_head check_body check_content_digest
    check_role check_faults check_measurements check_assertions check_diagnostics check_limitations
    check_environment check_times is_commit is_digest is_diagnostic_code is_platform_id
    is_go_version valid_attempt_id is_stable_id is_lab_metric_id is_blank
run_record_seals = refl

seal-encode_example :
    (seal json_of sum_of sealed_record ≡ ok sealed_record)
    × (encode json_of sum_of sealed_record
        ≡ map_result (λ compact. join_text compact "\n") (json_of sealed_record))
seal-encode_example =
    seal-encode json_of sum_of sum_of_hex run_record sealed_record run_record_seals
