-- ===== src/Evidence.antt =====
-- internal/evidence/model.go and id.go: records of evidence, and the texts that identify them.
pub mod Whitespace
pub mod Validate
pub mod Seal
mod Examples
use works_on_my_whiteboard.Prelude.{
  ℕ, ◌+◌, ◌*◌, ◌==◌, Bool, true, false, not, ◌&&◌, ◌||◌, Option, none, some, List, [], ◌∷◌, leb,
  ltb, if◌then◌else◌, String, length,
}
use works_on_my_whiteboard.Prelude.Int.{ℤ}
use works_on_my_whiteboard.Prelude.Text.{codes, is_space}
use works_on_my_whiteboard.Harness.Spec.{is_lower}
use works_on_my_whiteboard.Validator.References.{is_digit, two_digits, days_in}

-- An instant, and whether its location is time.UTC.
pub record Time : Type 0 where
  pub instant : ℕ
  pub is_utc : Bool

pub record Workload : Type 0 where
  pub id : String
  pub parameters : Option (List (String × ℤ))

pub record Fault : Type 0 where
  pub id : String
  pub at : ℤ
  pub duration : ℤ

pub record Environment : Type 0 where
  pub go_version : String
  pub os : String
  pub arch : String
  pub cpu : String
  pub logical_cpus : ℤ

pub record Measurement : Type 0 where
  pub unit : String
  pub value : ℤ

pub record Assertion : Type 0 where
  pub id : String
  pub passed : Bool
  pub message : String

pub record Diagnostic : Type 0 where
  pub code : String
  pub event : String
  pub message : String

-- A nil map or slice is `none`.
pub record Record : Type 0 where
  pub schema_version : ℕ
  pub id : String
  pub run_set_id : String
  pub lab_id : String
  pub required_run_id : String
  pub binding_id : String
  pub claim_id : String
  pub role : String
  pub implementation_id : String
  pub adapter_id : String
  pub profile : String
  pub hypothesis : String
  pub workload : Workload
  pub faults : Option (List Fault)
  pub status : String
  pub source_commit : String
  pub input_digest : String
  pub environment : Environment
  pub seed : ℤ
  pub deadline : ℤ
  pub started_at : Time
  pub finished_at : Time
  pub events_executed : ℕ
  pub parameters : Option (List (String × ℤ))
  pub measurements : Option (List (String × Measurement))
  pub assertions : Option (List Assertion)
  pub diagnostics : Option (List Diagnostic)
  pub conclusion : String
  pub limitations : Option (List String)
  pub content_digest : String

record CellKey : Type 0 where
  lab_id : String
  required_run_id : String
  binding_id : String
  claim_id : String
  implementation_id : String
  adapter_id : String

unfoldable cell_key : Record → CellKey
cell_key source = record {
  lab_id = source.lab_id;
  required_run_id = source.required_run_id;
  binding_id = source.binding_id;
  claim_id = source.claim_id;
  implementation_id = source.implementation_id;
  adapter_id = source.adapter_id;
}

abbrev pub all_codes : (ℕ → Bool) → List ℕ → Bool
all_codes test [] = true
all_codes test (c ∷ cs) = test c && all_codes test cs

-- What follows a prefix.
abbrev pub after_prefix : List ℕ → List ℕ → Option (List ℕ)
after_prefix [] cs = some cs
after_prefix (p ∷ ps) [] = none
after_prefix (p ∷ ps) (c ∷ cs) = let rest = after_prefix ps cs in if p == c then rest else none

abbrev pub passes : (List ℕ → Bool) → Option (List ℕ) → Bool
passes test none = false
passes test (some cs) = test cs

abbrev pub is_hex : ℕ → Bool
is_hex c = is_digit c || leb 97 c && leb c 102

-- commitPattern
unfoldable pub is_commit : String → Bool
is_commit s = all_codes is_hex (codes s) && (length (codes s) == 40 || length (codes s) == 64)

-- inputdigest.Parse
unfoldable pub is_digest : String → Bool
is_digest s =
    passes (λ cs. length cs == 64 && all_codes is_hex cs) (after_prefix (codes "sha256:") (codes s))

-- diagnosticPattern after its first letter, as is_metric_rest.
abbrev pub is_code_rest : Bool → List ℕ → Bool
is_code_rest after_separator [] = not after_separator
is_code_rest after_separator (c ∷ cs) =
    (is_lower c || is_digit c) && is_code_rest false cs
    || (c == 95 || c == 45) && not after_separator && is_code_rest true cs

abbrev pub is_code_codes : List ℕ → Bool
is_code_codes [] = false
is_code_codes (c ∷ cs) = is_lower c && is_code_rest false cs

unfoldable pub is_diagnostic_code : String → Bool
is_diagnostic_code s = is_code_codes (codes s)

-- platformIDPattern
abbrev pub is_platform_codes : List ℕ → Bool
is_platform_codes [] = false
is_platform_codes (c ∷ cs) =
    (is_lower c || is_digit c)
    && all_codes (λ d. is_lower d || is_digit d || d == 46 || d == 95 || d == 45) cs

unfoldable pub is_platform_id : String → Bool
is_platform_id s = is_platform_codes (codes s)

abbrev pub is_alnum : ℕ → Bool
is_alnum c = is_digit c || is_lower c || leb 65 c && leb c 90

-- The first character of a version, and [0-9A-Za-z ._:+-]* after it.
abbrev pub is_version : (ℕ → Bool) → List ℕ → Bool
is_version first_test [] = false
is_version first_test (c ∷ cs) =
    first_test c
    && all_codes (λ d. is_alnum d || d == 32 || d == 46 || d == 95 || d == 58 || d == 43 || d == 45)
        cs

-- goVersionPattern
unfoldable pub is_go_version : String → Bool
is_go_version s =
    passes (is_version is_digit) (after_prefix (codes "go") (codes s))
    || passes (is_version is_alnum) (after_prefix (codes "devel go") (codes s))

-- time.Parse of 20060102T150405.000Z, a dash and 32 digits in base 16.
abbrev pub is_stamp : List ℕ → Bool
is_stamp
      (a ∷ b ∷ c ∷ d ∷ e ∷ f ∷ g ∷ h ∷ t ∷ i ∷ j ∷ k ∷ l ∷ m ∷ n ∷ dot ∷ o ∷ p ∷ q ∷ z ∷ dash
        ∷ entropy) =
    let year = two_digits a b * 100 + two_digits c d in
    let month = two_digits e f in
    let day = two_digits g h in
    all_codes is_digit (a ∷ b ∷ c ∷ d ∷ e ∷ f ∷ g ∷ h ∷ i ∷ j ∷ k ∷ l ∷ m ∷ n ∷ o ∷ p ∷ q ∷ [])
    && t == 84
    && dot == 46
    && z == 90
    && dash == 45
    && length entropy == 32
    && all_codes is_hex entropy
    && leb 1 month
    && leb month 12
    && leb 1 day
    && leb day (days_in year month)
    && ltb (two_digits i j) 24
    && ltb (two_digits k l) 60
    && ltb (two_digits m n) 60
is_stamp other = false

unfoldable pub valid_attempt_id : String → String → Bool
valid_attempt_id value prefix = passes is_stamp (after_prefix (codes prefix) (codes value))
