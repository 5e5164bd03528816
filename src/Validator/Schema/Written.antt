-- ===== src/Validator/Schema/Written.antt =====
-- internal/validator/schema.go: what a complete case without schema diagnostics has.
use works_on_my_whiteboard.Prelude.{
  ◌≡◌, true, false, not, List, [], ◌∷◌, ◌++◌, map, String, refl, arith, All, All-map, All-append,
  concat_map, concat_map-nil, append-nil, is_nil, is_nil-nil,
}
use works_on_my_whiteboard.Prelude.Text.{is_blank}
use works_on_my_whiteboard.Prelude.Dict.{str_eq}
use works_on_my_whiteboard.Harness.Spec.{is_stable_id}
use works_on_my_whiteboard.Diagnostics.{Diagnostic, diagnostic_if-nil}
use works_on_my_whiteboard.Catalog.{
  CaseManifest, Claim, EvidenceRequirement, lifecycle_status_complete,
}
use works_on_my_whiteboard.Validator.Schema.{
  blank, empty, blank_string_items, missing_claim_fields, missing_requirement_fields,
  missing_complete_case_fields, complete_contract_diagnostic, stable_id_diagnostic,
  stable_id_diagnostics, lifecycle_diagnostic,
}
use works_on_my_whiteboard.Validator.Schema.Entities.{
  complete_contract, case_schema, dimension_diagnostics,
}

-- A case with every field that a complete one needs, of which the IDs are stable.
pub record IsWritten (manifest : CaseManifest) : Type 0 where
  pub id : is_stable_id manifest.id ≡ true
  pub family : is_stable_id manifest.primary_family ≡ true
  pub title : is_blank manifest.title ≡ false
  pub dimensions : is_nil manifest.dimensions ≡ false
  pub principles : is_nil manifest.principles ≡ false
  pub labs : is_nil manifest.labs ≡ false
  pub sources : is_nil manifest.sources ≡ false
  pub has_claims : is_nil manifest.claims ≡ false
  pub claims :
      All
        (λ claim. (is_blank claim.id ≡ false) × (is_blank claim.statement ≡ false))
        manifest.claims
  pub has_evidence : is_nil manifest.evidence_requirements ≡ false
  pub evidence :
      All
        (λ r. (is_stable_id r.claim ≡ true) × (is_stable_id r.lab ≡ true))
        manifest.evidence_requirements
  pub references :
      All
        (λ id. is_stable_id id ≡ true)
        (manifest.principles ++ (manifest.labs ++ manifest.sources))

blank-nil : (field value : String) → blank field value ≡ [] → is_blank value ≡ false
unfolding blank
blank-nil field value h = ground arith

empty-nil : {A : Type 0} (field : String) (xs : List A) → empty field xs ≡ [] → is_nil xs ≡ false
unfolding empty
empty-nil field [] h = cc
empty-nil field (x ∷ xs) h = refl

stable-nil :
    (entity_id field value : String)
    → stable_id_diagnostic entity_id field value ≡ []
    → is_stable_id value ≡ true
unfolding stable_id_diagnostic
stable-nil entity_id field value h =
    let good : not (is_stable_id value) ≡ false = diagnostic_if-nil _ _ _ _ h in ground arith

pub stables-nil :
    (entity_id field : String) (values : List String)
    → stable_id_diagnostics entity_id field values ≡ []
    → All (λ value. is_stable_id value ≡ true) values
unfolding stable_id_diagnostics
stables-nil entity_id field values h =
    All-map (λ value clean. stable-nil entity_id field value clean) values
      (concat_map-nil (λ value. stable_id_diagnostic entity_id field value) values h)

claims-nil :
    (claims : List Claim)
    → missing_claim_fields claims ≡ []
    → All (λ claim. (is_blank claim.id ≡ false) × (is_blank claim.statement ≡ false)) claims
unfolding missing_claim_fields
claims-nil claims h =
    All-map
      (λ claim clean.
        let (id, statement) = append-nil _ _ clean in
        (blank-nil _ claim.id id, blank-nil _ claim.statement statement))
      claims
      (concat_map-nil
        (λ claim. blank "claims.id" claim.id ++ blank "claims.statement" claim.statement) claims h)

-- The diagnostics of the evidence that a case requires.
abbrev evidence_schema : String → List EvidenceRequirement → List Diagnostic
evidence_schema entity_id requirements =
    concat_map
      (λ requirement.
        stable_id_diagnostic entity_id "case evidence claim reference" requirement.claim
        ++ stable_id_diagnostic entity_id "case evidence lab reference" requirement.lab)
      requirements

evidence-nil :
    (entity_id : String) (requirements : List EvidenceRequirement)
    → evidence_schema entity_id requirements ≡ []
    → All (λ r. (is_stable_id r.claim ≡ true) × (is_stable_id r.lab ≡ true)) requirements
evidence-nil entity_id requirements h =
    All-map
      (λ r clean.
        let (claim, lab) = append-nil _ _ clean in
        (stable-nil _ _ r.claim claim, stable-nil _ _ r.lab lab))
      requirements (concat_map-nil _ requirements h)

-- The fields that a complete contract reports.
record HasFields (manifest : CaseManifest) : Type 0 where
  title : is_blank manifest.title ≡ false
  dimensions : is_nil manifest.dimensions ≡ false
  principles : is_nil manifest.principles ≡ false
  labs : is_nil manifest.labs ≡ false
  sources : is_nil manifest.sources ≡ false
  has_claims : is_nil manifest.claims ≡ false
  claims :
      All
        (λ claim. (is_blank claim.id ≡ false) × (is_blank claim.statement ≡ false))
        manifest.claims
  has_evidence : is_nil manifest.evidence_requirements ≡ false

fields-nil :
    (manifest : CaseManifest) → missing_complete_case_fields manifest ≡ [] → HasFields manifest
unfolding missing_complete_case_fields
fields-nil m h =
    let (h13, source_items) = append-nil _ (blank_string_items "sources" m.sources) h in
    let (h12, lab_items) = append-nil _ (blank_string_items "labs" m.labs) h13 in
    let (h11, principle_items) = append-nil _ (blank_string_items "principles" m.principles) h12 in
    let (h10, evidence_items) =
      append-nil _ (missing_requirement_fields m.evidence_requirements) h11 in
    let (h9, claim_items) = append-nil _ (missing_claim_fields m.claims) h10 in
    let (h8, sources) = append-nil _ (empty "sources" m.sources) h9 in
    let (h7, evidence) = append-nil _ (empty "evidence_requirements" m.evidence_requirements) h8 in
    let (h6, labs) = append-nil _ (empty "labs" m.labs) h7 in
    let (h5, claims) = append-nil _ (empty "claims" m.claims) h6 in
    let (h4, principles) = append-nil _ (empty "principles" m.principles) h5 in
    let (h3, items) = append-nil _ (blank_string_items "dimensions" m.dimensions) h4 in
    let (h2, dimensions) = append-nil _ (empty "dimensions" m.dimensions) h3 in
    let (title, family) = append-nil _ (blank "primary_family" m.primary_family) h2 in
    record {
      title = blank-nil _ m.title title;
      dimensions = empty-nil _ m.dimensions dimensions;
      principles = empty-nil _ m.principles principles;
      labs = empty-nil _ m.labs labs;
      sources = empty-nil _ m.sources sources;
      has_claims = empty-nil _ m.claims claims;
      claims = claims-nil m.claims claim_items;
      has_evidence = empty-nil _ m.evidence_requirements evidence;
    }

contract-nil :
    (kind entity_id : String) (missing : List String)
    → complete_contract_diagnostic kind entity_id missing ≡ []
    → missing ≡ []
unfolding complete_contract_diagnostic
contract-nil kind entity_id missing h =
    let written : not (is_nil missing) ≡ false = diagnostic_if-nil _ _ _ _ h in
    is_nil-nil missing (ground arith)

contracted :
    (m : CaseManifest)
    → str_eq m.status lifecycle_status_complete ≡ true
    → complete_contract "case" m.id m.status (missing_complete_case_fields m) ≡ []
    → complete_contract_diagnostic "case" m.id (missing_complete_case_fields m) ≡ []
contracted m complete h = ground arith

-- A complete case without schema diagnostics is written.
pub case_schema-IsWritten :
    (manifest : CaseManifest)
    → case_schema manifest ≡ []
    → str_eq manifest.status lifecycle_status_complete ≡ true
    → IsWritten manifest
unfolding case_schema
case_schema-IsWritten m h complete =
    let (h10, contract) =
      append-nil _ (complete_contract "case" m.id m.status (missing_complete_case_fields m)) h in
    let (h9, lifecycle) = append-nil _ (lifecycle_diagnostic "case" m.id m.status) h10 in
    let (h8, sources) =
      append-nil _ (stable_id_diagnostics m.id "case source reference" m.sources) h9 in
    let (h7, evidence) = append-nil _ (evidence_schema m.id m.evidence_requirements) h8 in
    let (h6, labs) = append-nil _ (stable_id_diagnostics m.id "case lab reference" m.labs) h7 in
    let (h5, claims) =
      append-nil _ (stable_id_diagnostics m.id "case claim id" (map (λ claim. claim.id) m.claims))
        h6 in
    let (h4, principles) =
      append-nil _ (stable_id_diagnostics m.id "case principle reference" m.principles) h5 in
    let (h3, dimensions) =
      append-nil _ (dimension_diagnostics m.id "case dimension reference" m.dimensions) h4 in
    let (h2, secondary) =
      append-nil _
        (stable_id_diagnostics m.id "case secondary_families reference" m.secondary_families) h3 in
    let (id, family) =
      append-nil _ (stable_id_diagnostic m.id "case primary_family" m.primary_family) h2 in
    let clean : complete_contract_diagnostic "case" m.id (missing_complete_case_fields m) ≡ [] =
      contracted m complete contract in
    let fields = fields-nil m (contract-nil "case" m.id (missing_complete_case_fields m) clean) in
    record {
      id = stable-nil _ _ m.id id;
      family = stable-nil _ _ m.primary_family family;
      title = fields.title;
      dimensions = fields.dimensions;
      principles = fields.principles;
      labs = fields.labs;
      sources = fields.sources;
      has_claims = fields.has_claims;
      claims = fields.claims;
      has_evidence = fields.has_evidence;
      evidence = evidence-nil m.id m.evidence_requirements evidence;
      references =
          All-append (λ value. is_stable_id value ≡ true) m.principles (m.labs ++ m.sources)
            (stables-nil _ _ m.principles principles)
            (All-append (λ value. is_stable_id value ≡ true) m.labs m.sources
              (stables-nil _ _ m.labs labs) (stables-nil _ _ m.sources sources));
    }
