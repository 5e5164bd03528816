-- ===== src/Release/Examples.antt =====
-- A run of internal/release/validate.go at a concrete manifest.
use works_on_my_whiteboard.Prelude.{◌≡◌, none, some, false, List, [], ◌∷◌, String, refl, is_nil}
use works_on_my_whiteboard.Prelude.Sort.{text_lt}
use works_on_my_whiteboard.Harness.Spec.{is_stable_id}
use works_on_my_whiteboard.Evidence.{is_digest, valid_attempt_id}
use works_on_my_whiteboard.Release.{
  Selection, Manifest, invalid, valid_profile, valid_role, compare_by, compare_cell_role,
  validate_selection, check_selections, validate_manifest,
}
use works_on_my_whiteboard.Release.Canonical.{IsCanonical, validate_manifest-IsCanonical}

abbrev selected : String → String → String → Selection
selected role implementation_id evidence_id = record {
  role = role;
  lab_id = "bucket-lab";
  required_run_id = "burst-run";
  binding_id = "burst-principle";
  claim_id = "refills";
  implementation_id = implementation_id;
  adapter_id = "";
  evidence_id = evidence_id;
  content_digest = "sha256:0000000000000000000000000000000000000000000000000000000000000000";
}

abbrev baseline : Selection
baseline = selected "baseline" "integer" "run-20240229T235959.999Z-00112233445566778899aabbccddeeff"

abbrev variant : Selection
variant = selected "variant" "reference" "run-20240229T235959.999Z-ffeeddccbbaa99887766554433221100"

abbrev manifest_of : List Selection → Manifest
manifest_of selections = record {
  schema_version = 1;
  input_digest = "sha256:0000000000000000000000000000000000000000000000000000000000000000";
  profile = "smoke";
  run_set_id = "set-20240229T235959.999Z-00112233445566778899aabbccddeeff";
  selections = selections;
}

in_order_accepted : validate_manifest (manifest_of (baseline ∷ variant ∷ [])) ≡ none
unfolding validate_manifest check_selections validate_selection valid_profile valid_role compare_by
    compare_cell_role text_lt is_stable_id is_digest valid_attempt_id
in_order_accepted = refl

out_of_order_refused :
    validate_manifest (manifest_of (variant ∷ baseline ∷ []))
    ≡ some (invalid "selections are not in canonical matrix order")
unfolding validate_manifest check_selections validate_selection valid_profile valid_role compare_by
    compare_cell_role text_lt is_stable_id is_digest valid_attempt_id
out_of_order_refused = refl

validate_manifest-IsCanonical_example :
    (is_nil (baseline ∷ variant ∷ []) ≡ false) × IsCanonical (baseline ∷ variant ∷ [])
validate_manifest-IsCanonical_example =
    validate_manifest-IsCanonical (manifest_of (baseline ∷ variant ∷ [])) in_order_accepted
