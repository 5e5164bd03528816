-- ===== src/Release/Canonical.antt =====
-- internal/release/validate.go: accepted manifests are in one order.
use works_on_my_whiteboard.Prelude.{
  ◌==◌, ◌≡◌, true, false, not, Option, none, some, List, [], ◌∷◌, String, refl, arith, All, All-map,
  any_of, is_nil, else_check-none, check-none, check, GoError, message, Bool-cases, inl, inr,
}
use works_on_my_whiteboard.Prelude.Int.{ltb_ℤ, pos}
use works_on_my_whiteboard.Prelude.Dict.{str_eq, str_eq_iff}
use works_on_my_whiteboard.Prelude.Sort.{text_lt_irrefl, text_lt-total, text_lt-IsWeakOrder}
use works_on_my_whiteboard.Prelude.Lex.{lex_by, lex_by-IsWeakOrder}
use works_on_my_whiteboard.Evidence.{is_digest, valid_attempt_id}
use works_on_my_whiteboard.Release.{
  Selection, Manifest, compare_by, compare_cell_role, order_fields, same_cell, check_id, invalid,
  valid_profile, valid_role, validate_selection, invalid_if, is_out_of_order, check_selections,
  validate_manifest,
}

compare_by-lex_by :
    (fields : List (Selection → String)) (a b : Selection)
    → ltb_ℤ (compare_by fields a b) (pos 0) ≡ lex_by fields a b
unfolding compare_by lex_by
compare_by-lex_by [] a b = refl
compare_by-lex_by (field ∷ fields) a b = ground (
  arith,
  compare_by-lex_by fields a b,
  str_eq_iff (field a) (field b),
  text_lt_irrefl (field a),
  text_lt-total (field a) (field b),
  text_lt-IsWeakOrder.asym (field a) (field b),
)

-- Earlier in the order of the fields.
abbrev pub Before : Selection → Selection → Type 0
Before a b = lex_by order_fields a b ≡ true

Before-trans : (a b c : Selection) → Before a b → Before b c → Before a c
Before-trans a b c h k = elim (Bool-cases (lex_by order_fields a c)) [
  | inl less ↦ less
  | inr not_less ↦
      let order = lex_by-IsWeakOrder order_fields in
      cc (order.neg_trans a c b not_less (order.asym b c k), h)
]

-- A selection that stands alone: its role fits, and its texts parse.
abbrev pub IsSelection : Selection → Type 0
IsSelection s =
    (valid_role s.role s.implementation_id s.adapter_id ≡ true)
    × (valid_attempt_id s.evidence_id "run-" ≡ true)
    × (is_digest s.content_digest ≡ true)

-- Each selection is before all later ones, with another cell and another evidence ID.
abbrev pub IsCanonical : List Selection → Type 0
IsCanonical [] = Unit
IsCanonical (s ∷ ss) =
    IsSelection s
    × All
        (λ later.
          Before s later
          × (same_cell s later ≡ false)
          × (str_eq s.evidence_id later.evidence_id ≡ false))
        ss
    × IsCanonical ss

-- What the loop has seen, and the selection before.
abbrev IsNew : List Selection → Selection → Type 0
IsNew seen s =
    (any_of (λ other. same_cell other s) seen ≡ false)
    × (any_of (λ other. str_eq other.evidence_id s.evidence_id) seen ≡ false)

abbrev IsAfter : Option Selection → Selection → Type 0
IsAfter none s = Unit
IsAfter (some previous) s = Before previous s

in_order :
    (previous : Option Selection) (s : Selection)
    → is_out_of_order previous s ≡ false
    → IsAfter previous s
unfolding compare_cell_role
in_order none s h = tt
in_order (some previous) s h = ground (arith, compare_by-lex_by order_fields previous s, h)

IsAfter-trans :
    (previous : Option Selection) (s t : Selection)
    → IsAfter previous s
    → Before s t
    → IsAfter previous t
IsAfter-trans none s t h k = tt
IsAfter-trans (some previous) s t h k = Before-trans previous s t h k

invalid_if-none : (reason : String) (e : Option GoError) → invalid_if reason e ≡ none → e ≡ none
invalid_if-none reason none h = refl
invalid_if-none reason (some e) h = cc

validate_selection-IsSelection : (s : Selection) → validate_selection s ≡ none → IsSelection s
unfolding validate_selection
validate_selection-IsSelection s h =
    let (lab, h1) = else_check-none (check_id "lab_id is invalid" s.lab_id true) _ h in
    let (run, h2) =
      else_check-none (check_id "required_run_id is invalid" s.required_run_id true) _ h1 in
    let (binding, h3) = else_check-none (check_id "binding_id is invalid" s.binding_id true) _ h2 in
    let (claim, h4) = else_check-none (check_id "claim_id is invalid" s.claim_id true) _ h3 in
    let (implementation, h5) =
      else_check-none (check_id "implementation_id is invalid" s.implementation_id true) _ h4 in
    let (adapter, h6) =
      else_check-none (check_id "adapter_id is invalid" s.adapter_id false) _ h5 in
    let (role, h7) =
      else_check-none
        (check (not (valid_role s.role s.implementation_id s.adapter_id))
          (message "role/adapter identity is invalid"))
        _ h6 in
    let (evidence, digest) =
      else_check-none
        (check (not (valid_attempt_id s.evidence_id "run-")) (message "evidence_id is invalid"))
        (check (not (is_digest s.content_digest)) (message "content_digest is invalid")) h7 in
    let r : not (valid_role s.role s.implementation_id s.adapter_id) ≡ false =
      check-none _ _ role in
    let e : not (valid_attempt_id s.evidence_id "run-") ≡ false = check-none _ _ evidence in
    let d : not (is_digest s.content_digest) ≡ false = check-none _ _ digest in
    (ground (arith, r), ground (arith, e), ground (arith, d))

check_selections-IsCanonical :
    (seen : List Selection) (previous : Option Selection) (ss : List Selection)
    → check_selections seen previous ss ≡ none
    → IsCanonical ss × All (IsNew seen) ss × All (IsAfter previous) ss
unfolding check_selections
check_selections-IsCanonical seen previous [] h = (tt, tt, tt)
check_selections-IsCanonical seen previous (s ∷ ss) h =
    let (valid, h1) = else_check-none (invalid_if "selection" (validate_selection s)) _ h in
    let (cell, h2) =
      else_check-none
        (check (any_of (λ other. same_cell other s) seen) (invalid "selection repeats cell")) _
        h1 in
    let (evidence, h3) =
      else_check-none
        (check (any_of (λ other. str_eq other.evidence_id s.evidence_id) seen)
          (invalid "selection reuses evidence ID"))
        _ h2 in
    let (order, rest) =
      else_check-none
        (check (is_out_of_order previous s)
          (invalid "selections are not in canonical matrix order"))
        (check_selections (s ∷ seen) (some s) ss) h3 in
    let (canonical, new, later) = check_selections-IsCanonical (s ∷ seen) (some s) ss rest in
    let after : IsAfter previous s = in_order previous s (check-none _ _ order) in
    (
      (
        validate_selection-IsSelection s (invalid_if-none "selection" (validate_selection s) valid),
        joined ss later new,
        canonical,
      ),
      (
        (check-none _ _ cell, check-none _ _ evidence),
        All-map (λ t fresh. (ground arith, ground arith)) ss new,
      ),
      (after, All-map (λ t before. IsAfter-trans previous s t after before) ss later),
    )
  where
    joined :
        (ts : List Selection)
        → All (IsAfter (some s)) ts
        → All (IsNew (s ∷ seen)) ts
        → All
            (λ t.
              Before s t × (same_cell s t ≡ false) × (str_eq s.evidence_id t.evidence_id ≡ false))
            ts
    joined [] before new = tt
    joined (t ∷ ts) before new = ((before.0, ground arith, ground arith), joined ts before.1 new.1)

-- The selections of a manifest without a validation error are at least one; each has a role that fits
-- its adapter, an evidence ID and a digest that parse; and each comes strictly before all later ones
-- by the six fields and the role, with another cell and another evidence ID.
pub validate_manifest-IsCanonical :
    (manifest : Manifest)
    → validate_manifest manifest ≡ none
    → (is_nil manifest.selections ≡ false) × IsCanonical manifest.selections
unfolding validate_manifest
validate_manifest-IsCanonical manifest h =
    let (version, h1) =
      else_check-none (check (not (manifest.schema_version == 1)) (invalid "schema_version")) _ h in
    let (digest, h2) =
      else_check-none (check (not (is_digest manifest.input_digest)) (invalid "input_digest")) _
        h1 in
    let (profile, h3) =
      else_check-none
        (check (not (valid_profile manifest.profile)) (invalid "profile is not closed")) _ h2 in
    let (run_set, h4) =
      else_check-none
        (check (not (valid_attempt_id manifest.run_set_id "set-"))
          (invalid "run_set_id is invalid"))
        _ h3 in
    let (empty, selections) =
      else_check-none
        (check (is_nil manifest.selections) (invalid "selections must be explicit and nonempty"))
        (check_selections [] none manifest.selections) h4 in
    (check-none _ _ empty, (check_selections-IsCanonical [] none manifest.selections selections).0)
