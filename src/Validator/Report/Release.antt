-- ===== src/Validator/Report/Release.antt =====
-- internal/validator/validate.go: what a release without diagnostics holds.
use works_on_my_whiteboard.Prelude.{
  ◌≡◌, Bool, true, false, not, ◌||◌, none, some, List, [], ◌∷◌, map, String, refl, sym, ap, ◌∙◌,
  arith, All, append-nil, is_nil, is_nil-nil, length,
}
use works_on_my_whiteboard.Prelude.Dict.{string_key, str_eq_iff, lookup}
use works_on_my_whiteboard.Diagnostics.{mode_release, diagnostic_if-nil, sort_diagnostics-nil}
use works_on_my_whiteboard.Catalog.{Catalog, ScopeCase}
use works_on_my_whiteboard.Validator.{contains}
use works_on_my_whiteboard.Validator.Coverage.{Coverage, compute_coverage}
use works_on_my_whiteboard.Validator.Coverage.Counts.{
  is_in_scope, is_complete_case, IsAccount, compute_coverage-IsAccount,
}
use works_on_my_whiteboard.Validator.Cycle.Walks.{Ends}
use works_on_my_whiteboard.Validator.Graph.{
  build_required_dependency_graph, validate_dependency_graph,
}
use works_on_my_whiteboard.Validator.Graph.Clean.{IsReleased, validate_dependency_graph-IsReleased}
use works_on_my_whiteboard.Validator.References.Labs.{validate_references}
use works_on_my_whiteboard.Validator.Matrix.Build.{build_required_matrix}
use works_on_my_whiteboard.Validator.Report.{
  scope_families, validate_release_families, release_scope_diagnostics, mode_diagnostics, validate,
}
use works_on_my_whiteboard.Validator.Report.Scope.{scope_families_lem}
use works_on_my_whiteboard.Validator.Report.Clean.{
  references-nil, schema-nil, families-nil, IsCovered, covered,
}

-- Every case of the scope is covered, and only those are complete; what the release requires is
-- complete as far as it is declared, a lab of the kind that it is required as; and every walk along
-- the required dependencies ends.
pub record IsReleasable (c : Catalog) (coverage : Coverage) : Type 0 where
  pub totals : coverage.baseline_total ≡ coverage.complete_total
  pub complete_in_scope : (id : String) → is_complete_case c id ≡ is_in_scope c id
  pub covered : All (IsCovered c) c.scope.cases
  pub released : IsReleased c coverage
  pub acyclic : (node : String) → Ends (build_required_dependency_graph c) node

scope-nil :
    (coverage : Coverage)
    → release_scope_diagnostics coverage ≡ []
    → (coverage.missing_case_ids ≡ []) × (coverage.unexpected_case_ids ≡ [])
unfolding release_scope_diagnostics
scope-nil coverage h =
    let clean : (not (is_nil coverage.missing_case_ids)
          || not (is_nil coverage.unexpected_case_ids))
        ≡ false =
      diagnostic_if-nil _ _ _ _ h in
    (
      is_nil-nil coverage.missing_case_ids (ground arith),
      is_nil-nil coverage.unexpected_case_ids (ground arith),
    )

mode-nil :
    (c : Catalog) (coverage : Coverage)
    → mode_diagnostics (some c) coverage mode_release ≡ []
    → (release_scope_diagnostics coverage ≡ []) × (validate_release_families (some c) ≡ [])
unfolding mode_diagnostics
mode-nil c coverage h =
    append-nil (release_scope_diagnostics coverage) (validate_release_families (some c)) h

same_cases :
    (c : Catalog) (coverage : Coverage)
    → IsAccount c coverage
    → (coverage.missing_case_ids ≡ []) × (coverage.unexpected_case_ids ≡ [])
    → (id : String) → is_complete_case c id ≡ is_in_scope c id
same_cases c coverage account (missing, unexpected) id =
    let m = sym (ap (λ ids. contains id ids) missing) ∙ account.3 id in
    let u = sym (ap (λ ids. contains id ids) unexpected) ∙ account.4 id in ground (arith, m, u)

members :
    (P : ScopeCase → Type 0) (c : Catalog) (cases : List ScopeCase)
    → All P cases
    → (((k : ScopeCase) → contains k.id (map (λ o. o.id) cases) ≡ true → P k → IsCovered c k))
    → All (IsCovered c) cases
members P c [] h f = tt
members P c (k ∷ cases) h f = (
  f k (ground (arith, str_eq_iff k.id k.id)) h.0,
  members P c cases h.1 (λ o there p. f o (ground arith) p),
)

-- If a validation for release reports no diagnostic, then the totals of its coverage agree; the
-- complete cases are exactly those of the scope, and each of them has a manifest in the family that
-- the scope gives it, with stable IDs, a title, claims with statements, evidence, principles, labs,
-- dimensions and sources; the required principles that are declared are complete, and so are the
-- required labs that are declared of the kind that they are required as; and no walk along the
-- required dependencies goes on for ever.
pub validate-IsReleasable :
    (is_direct_https : String → Bool) (c : Catalog)
    → (validate is_direct_https (some c) mode_release).diagnostics ≡ []
    → IsReleasable c (validate is_direct_https (some c) mode_release).coverage
unfolding validate lookup
validate-IsReleasable is_direct_https c h =
    let coverage = compute_coverage (some c) in
    let all = sort_diagnostics-nil _ h in
    let (h1, mode) = append-nil _ (mode_diagnostics (some c) coverage mode_release) all in
    let (h2, matrix) = append-nil _ (build_required_matrix (some c)).1 h1 in
    let (h3, graph) = append-nil _ (validate_dependency_graph (some c) coverage mode_release) h2 in
    let (schema, references) = append-nil _ (validate_references is_direct_https (some c)) h3 in
    let (scope, families) = mode-nil c coverage mode in
    let account = compute_coverage-IsAccount c in
    let gaps = scope-nil coverage scope in
    let same = same_cases c coverage account gaps in
    let dependencies = validate_dependency_graph-IsReleased c coverage graph in
    record {
      totals =
          omega (arith, account.0, ap (λ ids. length ids) gaps.0, ap (λ ids. length ids) gaps.1);
      complete_in_scope = same;
      covered =
          members (λ k. lookup k.id (scope_families [] c.scope.cases) ≡ some k.primary_family) c
            c.scope.cases
            (scope_families_lem [] c.scope.cases (none_known c.scope.cases)
              (references-nil is_direct_https c references))
            (λ k there family.
              covered c k (same k.id ∙ there) family (schema-nil c schema)
                (families-nil c families));
      released = dependencies.0;
      acyclic = dependencies.1;
    }
  where
    none_known : (cases : List ScopeCase) → All (λ k. lookup {V = String} k.id [] ≡ none) cases
    none_known [] = tt
    none_known (k ∷ cases) = (refl, none_known cases)
