-- ===== src/Validator/Report/Clean.antt =====
-- internal/validator/validate.go: what parts without diagnostics show of a catalog.
use works_on_my_whiteboard.Prelude.{
  ◌≡◌, Bool, true, false, ◌&&◌, some, [], map, String, sym, ap, ◌∙◌, arith, All, All-map,
  append-nil, concat_map-nil, concat_map, Option-cases, inl, inr,
}
use works_on_my_whiteboard.Prelude.Dict.{string_key, str_eq_iff, lookup}
use works_on_my_whiteboard.Diagnostics.{diagnostic_if-nil}
use works_on_my_whiteboard.Catalog.{Catalog, ScopeCase, CaseManifest}
use works_on_my_whiteboard.Validator.{
  sorted_entries, case_manifests_by_id, principle_manifests_by_id, lab_manifests_by_id,
  adapter_manifests_by_id,
}
use works_on_my_whiteboard.Validator.Sets.{IsDistinct}
use works_on_my_whiteboard.Validator.Index.{
  holds_at, lookup-sorted_entries, lookup-id, lookup-All, index_by_id-IsIndex,
}
use works_on_my_whiteboard.Validator.Coverage.{is_complete}
use works_on_my_whiteboard.Validator.Coverage.Counts.{is_complete_case}
use works_on_my_whiteboard.Validator.References.{
  scope_case_diagnostics, family_ids_of, claim_diagnostics, source_diagnostics,
  exclusion_diagnostics,
}
use works_on_my_whiteboard.Validator.References.Labs.{validate_references}
use works_on_my_whiteboard.Validator.Schema.Entities.{case_schema}
use works_on_my_whiteboard.Validator.Schema.Contracts.{validate_schema_contracts}
use works_on_my_whiteboard.Validator.Schema.Written.{IsWritten, case_schema-IsWritten}
use works_on_my_whiteboard.Validator.Report.{
  scope_families, is_other_family, validate_release_families,
}
use works_on_my_whiteboard.Validator.Report.Scope.{scope_case-IsDistinct}

pub references-nil :
    (is_direct_https : String → Bool) (c : Catalog)
    → validate_references is_direct_https (some c) ≡ []
    → IsDistinct (map (λ k. k.id) c.scope.cases)
unfolding validate_references
references-nil is_direct_https c h =
    let (h1, adapters) =
      append-nil _ (concat_map _ (sorted_entries (adapter_manifests_by_id c))) h in
    let (h2, labs) = append-nil _ (concat_map _ (sorted_entries (lab_manifests_by_id c))) h1 in
    let (h3, principles) =
      append-nil _ (concat_map _ (sorted_entries (principle_manifests_by_id c))) h2 in
    let (h4, cases) = append-nil _ (concat_map _ (sorted_entries (case_manifests_by_id c))) h3 in
    let (h5, claims) = append-nil _ (claim_diagnostics c) h4 in
    let (h6, sources) = append-nil _ (source_diagnostics is_direct_https c) h5 in
    let (h7, exclusions) = append-nil _ (exclusion_diagnostics c) h6 in
    let (families, scope) =
      append-nil _ (scope_case_diagnostics (family_ids_of c) [] c.scope.cases) h7 in
    (scope_case-IsDistinct (family_ids_of c) [] c.scope.cases scope).1

pub schema-nil :
    (c : Catalog)
    → validate_schema_contracts (some c) ≡ []
    → All (λ entry. case_schema entry.1 ≡ []) (sorted_entries (case_manifests_by_id c))
unfolding validate_schema_contracts
schema-nil c h =
    let (h1, adapters) =
      append-nil _ (concat_map _ (sorted_entries (adapter_manifests_by_id c))) h in
    let (h2, labs) = append-nil _ (concat_map _ (sorted_entries (lab_manifests_by_id c))) h1 in
    let (h3, principles) =
      append-nil _ (concat_map _ (sorted_entries (principle_manifests_by_id c))) h2 in
    let (h4, cases) =
      append-nil _
        (concat_map (λ entry. case_schema entry.1) (sorted_entries (case_manifests_by_id c))) h3 in
    concat_map-nil (λ entry. case_schema entry.1) (sorted_entries (case_manifests_by_id c)) cases

pub families-nil :
    (c : Catalog)
    → validate_release_families (some c) ≡ []
    → All
        (λ entry.
          (is_complete entry.1
            && is_other_family
                (lookup entry.1.id (scope_families [] c.scope.cases))
                entry.1.primary_family)
          ≡ false)
        (sorted_entries (case_manifests_by_id c))
unfolding validate_release_families
families-nil c h =
    All-map (λ entry clean. diagnostic_if-nil _ _ _ _ clean)
      (sorted_entries (case_manifests_by_id c))
      (concat_map-nil _ (sorted_entries (case_manifests_by_id c)) h)

-- A case of the scope has a complete manifest in its family, with all that a complete case needs.
abbrev pub IsCovered : Catalog → ScopeCase → Type 0
IsCovered c scope_case =
    (manifest : CaseManifest) × (lookup scope_case.id (case_manifests_by_id c) ≡ some manifest)
    × (is_complete manifest ≡ true)
    × (manifest.primary_family ≡ scope_case.primary_family)
    × IsWritten manifest

pub covered :
    (c : Catalog) (k : ScopeCase)
    → is_complete_case c k.id ≡ true
    → lookup k.id (scope_families [] c.scope.cases) ≡ some k.primary_family
    → All (λ entry. case_schema entry.1 ≡ []) (sorted_entries (case_manifests_by_id c))
    → All
        (λ entry.
          (is_complete entry.1
            && is_other_family
                (lookup entry.1.id (scope_families [] c.scope.cases))
                entry.1.primary_family)
          ≡ false)
        (sorted_entries (case_manifests_by_id c))
    → IsCovered c k
unfolding case_manifests_by_id
covered c k done family schema families =
    elim (Option-cases (lookup k.id (case_manifests_by_id c))) [
      | inl missing ↦ cc (ap (λ found. holds_at is_complete found) missing, done)
      | inr (m, found) ↦
          let complete : is_complete m ≡ true =
            sym (ap (λ f. holds_at is_complete f) found) ∙ done in
          let there : lookup k.id (sorted_entries (case_manifests_by_id c)) ≡ some m =
            lookup-sorted_entries k.id (case_manifests_by_id c) ∙ found in
          let named : m.id ≡ k.id =
            lookup-id (λ (x : CaseManifest). x.id) k.id (case_manifests_by_id c) m
              (index_by_id-IsIndex (λ x. x.id) c.cases) found in
          let same : (is_complete m
                && is_other_family (lookup m.id (scope_families [] c.scope.cases)) m.primary_family)
              ≡ false =
            lookup-All
              (λ x.
                (is_complete x
                  && is_other_family (lookup x.id (scope_families [] c.scope.cases))
                      x.primary_family)
                ≡ false)
              k.id (sorted_entries (case_manifests_by_id c)) m families there in
          let expected : lookup m.id (scope_families [] c.scope.cases) ≡ some k.primary_family =
            ap (λ id. lookup id (scope_families [] c.scope.cases)) named ∙ family in
          let other : is_other_family (some k.primary_family) m.primary_family ≡ false =
            sym (ap (λ f. is_other_family f m.primary_family) expected) ∙ ground arith in
          (
            m,
            found,
            complete,
            (str_eq_iff m.primary_family k.primary_family).0 (ground arith),
            case_schema-IsWritten m
                (lookup-All (λ x. case_schema x ≡ []) k.id (sorted_entries (case_manifests_by_id c))
                  m schema there)
                complete,
          )
    ]
