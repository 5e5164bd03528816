-- ===== src/Evidence/Seal.antt =====
-- internal/evidence/model.go and content_digest.go: sealing a record and encoding it.
use works_on_my_whiteboard.Prelude.{
  ◌≡◌, true, false, not, Option, none, some, if◌then◌else◌, String, refl, ap, subst, ◌∙◌, sym,
  Result, ok, err, GoError, sentinel, wrap, Sentinel, check, ◌else_check◌, else_check-none,
  Bool-cases, inl, inr,
}
use works_on_my_whiteboard.Prelude.Text.{join_text}
use works_on_my_whiteboard.Prelude.Dict.{str_eq, str_eq_iff}
use works_on_my_whiteboard.Evidence.{Record, Environment, Time, is_digest}
use works_on_my_whiteboard.Evidence.Whitespace.{
  normalize_whitespace, normalize_whitespace_idempotent,
}
use works_on_my_whiteboard.Evidence.Validate.{
  validate_record, check_head, check_body, check_role, check_times, check_content_digest, is_zero,
}

unfoldable pub canonical_time : Time → Time
canonical_time t = if is_zero t then t else record { instant = t.instant; is_utc = true }

unfoldable pub normalize_environment : Environment → Environment
normalize_environment e = record {
  go_version = normalize_whitespace e.go_version;
  os = normalize_whitespace e.os;
  arch = normalize_whitespace e.arch;
  cpu = normalize_whitespace e.cpu;
  logical_cpus = e.logical_cpus;
}

-- The maps and slices are values here, so cloning them changes nothing.
unfoldable pub clone_and_normalize : Record → Record
clone_and_normalize source = record source {
  environment = normalize_environment source.environment;
  started_at = canonical_time source.started_at;
  finished_at = canonical_time source.finished_at;
}

abbrev pub with_digest : String → Record → Record
with_digest digest source = record source { content_digest = digest }

abbrev pub sealed : Option GoError → Result String → Record → Result Record
sealed (some e) digest source = err e
sealed none (err e) source = err e
sealed none (ok digest) source = ok (with_digest digest source)

abbrev pub or_error : {A : Type 0} → Option GoError → Result A → Result A
or_error none result = result
or_error (some e) result = err e

abbrev pub map_result : {A B : Type 0} → (A → B) → Result A → Result B
map_result f (ok a) = ok (f a)
map_result f (err e) = err e

-- `canonical_json` is the encoder of package encoding/json and `sum` the SHA-256 of package
-- crypto/sha256 in base 16.
module _ (canonical_json : Record → Result String) (sum : String → String) where
  unfoldable pub calculate_content_digest : Record → Result String
  calculate_content_digest source =
      map_result (λ compact. join_text "sha256:" (sum compact))
        (canonical_json (with_digest "" source))

  unfoldable pub seal : Record → Result Record
  seal source =
      let normal = with_digest "" (clone_and_normalize source) in
      sealed (validate_record normal false) (calculate_content_digest normal) normal

  abbrev pub is_result : String → Result String → Option GoError
  is_result digest (err e) = some e
  is_result digest (ok want) =
      check (not (str_eq digest want))
        (wrap "self-digest mismatch" (sentinel Sentinel.invalid_content_digest))

  unfoldable pub encode : Record → Result String
  encode source =
      or_error
        (check (not (is_digest source.content_digest))
            (wrap "record is not sealed" (sentinel Sentinel.invalid_content_digest))
          else_check validate_record source true
          else_check is_result source.content_digest (calculate_content_digest source))
        (map_result (λ compact. join_text compact "\n") (canonical_json source))

canonical_time_idempotent : (t : Time) → canonical_time (canonical_time t) ≡ canonical_time t
unfolding canonical_time
canonical_time_idempotent t = elim (Bool-cases (is_zero t)) [
  | inl zero_t ↦ rw zero_t (rw zero_t refl)
  | inr later ↦ rw later (rw later refl)
]

normalize_environment_idempotent :
    (e : Environment) → normalize_environment (normalize_environment e) ≡ normalize_environment e
unfolding normalize_environment
normalize_environment_idempotent e =
    rw
      (
        normalize_whitespace_idempotent e.go_version,
        normalize_whitespace_idempotent e.os,
        normalize_whitespace_idempotent e.arch,
        normalize_whitespace_idempotent e.cpu,
      )
      refl

clone_and_normalize_idempotent :
    (source : Record)
    → clone_and_normalize (clone_and_normalize source) ≡ clone_and_normalize source
unfolding clone_and_normalize
clone_and_normalize_idempotent source =
    rw
      (
        normalize_environment_idempotent source.environment,
        canonical_time_idempotent source.started_at,
        canonical_time_idempotent source.finished_at,
      )
      refl

clone_again :
    (d : String) (source : Record)
    → with_digest ""
        (clone_and_normalize (with_digest d (with_digest "" (clone_and_normalize source))))
      ≡ with_digest "" (clone_and_normalize source)
unfolding clone_and_normalize
clone_again d source = ap (λ r. with_digest "" r) (clone_and_normalize_idempotent source)

sealed-ok :
    (checked : Option GoError) (digest : Result String) (source result : Record)
    → sealed checked digest source ≡ ok result
    → (checked ≡ none) × (d : String) × (digest ≡ ok d) × (with_digest d source ≡ result)
sealed-ok none (ok d) source result h = (refl, d, refl, cc)
sealed-ok none (err e) source result h = cc
sealed-ok (some e) digest source result h = cc

map_result-ok :
    (f : String → String) (from : Result String) (d : String)
    → map_result f from ≡ ok d
    → (s : String) × (f s ≡ d)
map_result-ok f (ok s) d h = (s, cc)
map_result-ok f (err e) d h = cc

-- The other rules do not read the content digest.
check_head-with_digest :
    (d : String) (source : Record) → check_head (with_digest d source) ≡ check_head source
unfolding check_head check_role
check_head-with_digest d source = refl

check_body-with_digest :
    (d : String) (source : Record) → check_body (with_digest d source) ≡ check_body source
unfolding check_body check_times
check_body-with_digest d source = refl

validate_record-sealed :
    (d : String) (source : Record)
    → is_digest d ≡ true
    → validate_record source false ≡ none
    → validate_record (with_digest d source) true ≡ none
unfolding validate_record check_content_digest
validate_record-sealed d source parses h =
    let (head_clean, rest) = else_check-none (check_head source) _ h in
    let (body_clean, digest) = else_check-none (check_body source) _ rest in
    rw
      (
        check_head-with_digest d source,
        check_body-with_digest d source,
        head_clean,
        body_clean,
        parses,
      )
      refl

module _ (canonical_json : Record → Result String) (sum : String → String)
    (sum_is_hex : (compact : String) → is_digest (join_text "sha256:" (sum compact)) ≡ true) where
  calculate-with_digest :
      (d : String) (source : Record)
      → calculate_content_digest canonical_json sum (with_digest d source)
        ≡ calculate_content_digest canonical_json sum source
  unfolding calculate_content_digest
  calculate-with_digest d source = refl

  seal_again :
      (d : String) (source : Record)
      → validate_record (with_digest "" (clone_and_normalize source)) false ≡ none
      → calculate_content_digest canonical_json sum (with_digest "" (clone_and_normalize source))
        ≡ ok d
      → seal canonical_json sum (with_digest d (with_digest "" (clone_and_normalize source)))
        ≡ ok (with_digest d (with_digest "" (clone_and_normalize source)))
  unfolding seal
  seal_again d source clean digest =
      ap (λ n. sealed (validate_record n false) (calculate_content_digest canonical_json sum n) n)
        (clone_again d source)
      ∙ rw (clean, digest) refl

  encode_sealed :
      (d : String) (normal : Record)
      → is_digest d ≡ true
      → validate_record normal false ≡ none
      → calculate_content_digest canonical_json sum normal ≡ ok d
      → encode canonical_json sum (with_digest d normal)
        ≡ map_result (λ compact. join_text compact "\n") (canonical_json (with_digest d normal))
  unfolding encode
  encode_sealed d normal parses clean digest =
      rw
        (
          parses,
          validate_record-sealed d normal parses clean,
          calculate-with_digest d normal ∙ digest,
          (str_eq_iff d d).1 refl,
        )
        refl

  -- Where SHA-256 is printed as 64 digits in base 16: the record that Seal returns is sealed to itself
  -- again, and Encode accepts it, so that its result is the JSON of the record and a line feed, or the
  -- error of the JSON encoder.
  pub seal-encode :
      (source result : Record)
      → seal canonical_json sum source ≡ ok result
      → (seal canonical_json sum result ≡ ok result)
        × (encode canonical_json sum result
            ≡ map_result (λ compact. join_text compact "\n") (canonical_json result))
  unfolding seal calculate_content_digest
  seal-encode source result h =
      let normal = with_digest "" (clone_and_normalize source) in
      let (clean, d, digest, same) =
        sealed-ok (validate_record normal false)
          (calculate_content_digest canonical_json sum normal) normal result h in
      let (compact, printed) = map_result-ok _ (canonical_json normal) d digest in
      let parses : is_digest d ≡ true = ap (λ x. is_digest x) (sym printed) ∙ sum_is_hex compact in
      subst
        (λ r.
          (seal canonical_json sum r ≡ ok r)
          × (encode canonical_json sum r
              ≡ map_result (λ text. join_text text "\n") (canonical_json r)))
        same (seal_again d source clean digest, encode_sealed d normal parses clean digest)
