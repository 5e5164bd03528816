-- ===== src/Validator/References.antt =====
-- internal/validator/references.go: the references of a scope, of sources and of claims.
pub mod Manifests
pub mod Labs
use works_on_my_whiteboard.Prelude.{
  ℕ, ◌+◌, ◌-◌, ◌*◌, ◌%◌, Bool, true, false, not, ◌&&◌, ◌||◌, Option, none, some, List, [], ◌∷◌,
  ◌++◌, map, ltb, leb, ◌==◌, if◌then◌else◌, String, keep_if, any_of, concat_map, length,
}
use works_on_my_whiteboard.Prelude.Text.{codes}
use works_on_my_whiteboard.Prelude.Dict.{string_key, str_eq, lookup}
use works_on_my_whiteboard.Diagnostics.{Diagnostic, diagnostic_if}
use works_on_my_whiteboard.Diagnostics.Codes.{
  code_duplicate_scope_family, code_duplicate_scope_case, code_unknown_family,
  code_unknown_reference, code_invalid_source_url, code_invalid_source_date,
  code_duplicate_claim_id, code_dangling_source,
}
use works_on_my_whiteboard.Catalog.{
  Catalog, ScopeFamily, ScopeCase, SourceRecord, Claim, CaseManifest, PrincipleManifest,
  LabManifest, EvidenceRequirement, entity_kind_case, entity_kind_principle, entity_kind_lab,
  entity_kind_source,
}
use works_on_my_whiteboard.Validator.{
  contains, add, make_string_set, sorted, sorted_entries, resolve_id, case_manifests_by_id,
  principle_manifests_by_id, source_records_by_id,
}

unfoldable pub family_duplicates : List String → List ScopeFamily → List Diagnostic
family_duplicates seen [] = []
family_duplicates seen (family ∷ families) =
    diagnostic_if (contains family.id seen) code_duplicate_scope_family family.id
      "scope family is declared more than once"
    ++ family_duplicates (add family.id seen) families

abbrev pub family_ids_of : Catalog → List String
family_ids_of c = make_string_set (map (λ f. f.id) c.scope.families)

abbrev pub scope_case_ids : Catalog → List String
scope_case_ids c = make_string_set (map (λ k. k.id) c.scope.cases)

unfoldable pub scope_case_diagnostics : List String → List String → List ScopeCase → List Diagnostic
scope_case_diagnostics families seen [] = []
scope_case_diagnostics families seen (scope_case ∷ cases) =
    diagnostic_if (contains scope_case.id seen) code_duplicate_scope_case scope_case.id
      "scope case is declared more than once"
    ++ diagnostic_if (not (contains scope_case.primary_family families)) code_unknown_family
        scope_case.id "scope case references unknown primary family"
    ++ scope_case_diagnostics families (add scope_case.id seen) cases

unfoldable pub exclusion_diagnostics : Catalog → List Diagnostic
exclusion_diagnostics c =
    concat_map
      (λ exclusion.
        diagnostic_if
          (not (
            contains (resolve_id c entity_kind_case exclusion.canonical_case_id)
              (scope_case_ids c)))
          code_unknown_reference exclusion.id "scope exclusion references unknown canonical case")
      c.scope.exclusions

abbrev pub is_digit : ℕ → Bool
is_digit d = leb 48 d && leb d 57

abbrev pub two_digits : ℕ → ℕ → ℕ
two_digits a b = (a - 48) * 10 + (b - 48)

abbrev pub is_leap : ℕ → Bool
is_leap year = year % 4 == 0 && (not (year % 100 == 0) || year % 400 == 0)

abbrev pub days_in : ℕ → ℕ → ℕ
days_in year month =
    if month == 2
    then if is_leap year then 29 else 28
    else if month == 4 || month == 6 || month == 9 || month == 11
    then 30
    else 31

-- time.Parse with the layout 2006-01-02: four digits, two and two, and a day that the month has. It
-- formats such a date as it was, so the test that follows adds nothing.
unfoldable pub is_date_codes : List ℕ → Bool
is_date_codes (a ∷ b ∷ c ∷ d ∷ h ∷ e ∷ f ∷ i ∷ g ∷ j ∷ []) =
    let year = two_digits a b * 100 + two_digits c d in
    let month = two_digits e f in
    let day = two_digits g j in
    is_digit a
    && is_digit b
    && is_digit c
    && is_digit d
    && h == 45
    && is_digit e
    && is_digit f
    && i == 45
    && is_digit g
    && is_digit j
    && leb 1 month
    && leb month 12
    && leb 1 day
    && leb day (days_in year month)
is_date_codes other = false

unfoldable pub is_real_date : String → Bool
is_real_date s = is_date_codes (codes s)

-- `is_direct_https` is what url.Parse of package net/url says: no error, the scheme https, and a host.
unfoldable pub source_diagnostics : (String → Bool) → Catalog → List Diagnostic
source_diagnostics is_direct_https c =
    concat_map
      (λ entry.
        diagnostic_if (not (is_direct_https entry.1.url)) code_invalid_source_url entry.1.id
          "source URL must be a direct HTTPS URL with a host"
        ++ diagnostic_if (not (is_real_date entry.1.accessed_at)) code_invalid_source_date
            entry.1.id "source accessed_at must be a real YYYY-MM-DD date")
      (sorted_entries (source_records_by_id c))

pub record ClaimOwner : Type 0 where
  pub kind : String
  pub id : String

-- The map of lists is the list of the pairs that are appended to it, in order.
unfoldable pub build_claim_owners : Catalog → List (String × ClaimOwner)
build_claim_owners c =
    concat_map
      (λ entry.
        map (λ claim. (claim.id, record { kind = entity_kind_case; id = entry.0 })) entry.1.claims)
      (sorted_entries (case_manifests_by_id c))
    ++ concat_map
        (λ entry.
          map (λ claim. (claim.id, record { kind = entity_kind_principle; id = entry.0 }))
            entry.1.claims)
        (sorted_entries (principle_manifests_by_id c))

-- owners[claimID]
abbrev pub owners_of : List (String × ClaimOwner) → String → List (String × ClaimOwner)
owners_of owners claim_id = keep_if (λ pair. str_eq pair.0 claim_id) owners

unfoldable pub claim_owned_by : List (String × ClaimOwner) → String → String → String → Bool
claim_owned_by owners claim_id kind owner_id =
    any_of (λ pair. str_eq pair.1.kind kind && str_eq pair.1.id owner_id)
      (owners_of owners claim_id)

unfoldable pub claim_diagnostics : Catalog → List Diagnostic
claim_diagnostics c =
    let owners = build_claim_owners c in
    concat_map
      (λ claim_id.
        diagnostic_if (not (ltb (length (owners_of owners claim_id)) 2)) code_duplicate_claim_id
          claim_id "claim ID is declared by multiple entities")
      (sorted (make_string_set (map (λ pair. pair.0) owners)))

unfoldable pub claim_id_set : List Claim → List String
claim_id_set claims = make_string_set (map (λ claim. claim.id) claims)

unfoldable pub canonical_reference_set : Catalog → String → List String → List String
canonical_reference_set c kind references =
    make_string_set (map (λ reference. resolve_id c kind reference) references)

abbrev pub is_absent : {V : Type 0} → Option V → Bool
is_absent none = true
is_absent (some v) = false

unfoldable pub validate_source_references : Catalog → String → List String → List Diagnostic
validate_source_references c entity_id references =
    concat_map
      (λ reference.
        diagnostic_if
          (is_absent (lookup (resolve_id c entity_kind_source reference) (source_records_by_id c)))
          code_dangling_source entity_id "entity references unknown source")
      references
