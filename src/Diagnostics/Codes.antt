-- ===== src/Diagnostics/Codes.antt =====
-- internal/validator/diagnostic.go: the codes of diagnostics.
use works_on_my_whiteboard.Prelude.{String}

abbrev pub code_invalid_stable_id : String
code_invalid_stable_id = "invalid_stable_id"

abbrev pub code_duplicate_scope_family : String
code_duplicate_scope_family = "duplicate_scope_family"

abbrev pub code_duplicate_scope_case : String
code_duplicate_scope_case = "duplicate_scope_case"

abbrev pub code_case_outside_scope : String
code_case_outside_scope = "case_outside_scope"

abbrev pub code_unknown_family : String
code_unknown_family = "unknown_family"

abbrev pub code_unknown_reference : String
code_unknown_reference = "unknown_reference"

abbrev pub code_duplicate_claim_id : String
code_duplicate_claim_id = "duplicate_claim_id"

abbrev pub code_invalid_source_url : String
code_invalid_source_url = "invalid_source_url"

abbrev pub code_invalid_source_date : String
code_invalid_source_date = "invalid_source_date"

abbrev pub code_dangling_source : String
code_dangling_source = "dangling_source"

abbrev pub code_complete_contract_empty : String
code_complete_contract_empty = "complete_contract_empty"

abbrev pub code_missing_case_binding : String
code_missing_case_binding = "missing_case_binding"

abbrev pub code_missing_principle_binding : String
code_missing_principle_binding = "missing_principle_binding"

abbrev pub code_duplicate_binding_id : String
code_duplicate_binding_id = "duplicate_binding_id"

abbrev pub code_duplicate_required_run : String
code_duplicate_required_run = "duplicate_required_run"

abbrev pub code_invalid_run_binding : String
code_invalid_run_binding = "invalid_run_binding"

abbrev pub code_foreign_claim : String
code_foreign_claim = "foreign_claim"

abbrev pub code_unused_binding : String
code_unused_binding = "unused_binding"

abbrev pub code_binding_workload_mismatch : String
code_binding_workload_mismatch = "binding_workload_mismatch"

abbrev pub code_unknown_implementation : String
code_unknown_implementation = "unknown_implementation"

abbrev pub code_missing_required_principle_lab : String
code_missing_required_principle_lab = "missing_required_principle_lab"

abbrev pub code_missing_required_adapter : String
code_missing_required_adapter = "missing_required_adapter"

abbrev pub code_dependency_incomplete : String
code_dependency_incomplete = "dependency_incomplete"

abbrev pub code_orphaned_lab : String
code_orphaned_lab = "orphaned_lab"

abbrev pub code_status_vocabulary_mismatch : String
code_status_vocabulary_mismatch = "status_vocabulary_mismatch"

abbrev pub code_alias_cycle : String
code_alias_cycle = "alias_cycle"

abbrev pub code_release_scope_incomplete : String
code_release_scope_incomplete = "release_scope_incomplete"

abbrev pub code_release_family_mismatch : String
code_release_family_mismatch = "release_family_mismatch"
