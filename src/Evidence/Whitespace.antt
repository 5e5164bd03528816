-- ===== src/Evidence/Whitespace.antt =====
-- internal/evidence/model.go: normalizeWhitespace, and that it changes nothing when it is repeated.
use Prim.Native.Char.{code}
use works_on_my_whiteboard.Prelude.{
  ◌≡◌, Bool, true, false, if◌then◌else◌, String, refl, ap, Bool-cases, inl, inr,
}
use works_on_my_whiteboard.Prelude.Text.{is_space}

-- Before the first word, inside a word, and after one.
pub data Place : Type 0 where
  start inside gap : Place

abbrev pub place_after : Place → Bool → Place
place_after start true = start
place_after inside true = gap
place_after gap true = gap
place_after place false = inside

-- A character of a word; one space stands before a word that follows another.
abbrev pub word_character : Place → String → String
word_character start rest = rest
word_character inside rest = rest
word_character gap rest = String.◌∷◌ " " rest

-- The words of strings.Fields, joined by one space.
unfoldable pub normalize_from : Place → String → String
normalize_from place String.[] = ""
normalize_from place (String.◌∷◌ c s) =
    let rest = normalize_from (place_after place (is_space (code c))) s in
    if is_space (code c) then rest else word_character place (String.◌∷◌ c rest)

unfoldable pub normalize_whitespace : String → String
normalize_whitespace value = normalize_from start value

inside_again :
    (s : String)
    → (normalize_from inside (normalize_from inside s) ≡ normalize_from inside s)
      × (normalize_from inside (normalize_from gap s) ≡ normalize_from gap s)
unfolding normalize_from
inside_again String.[] = (refl, refl)
inside_again (String.◌∷◌ c s) = elim (Bool-cases (is_space (code c))) [
  | inl space ↦ rw space ((inside_again s).1, (inside_again s).1)
  | inr letter ↦ rw letter (
    rw letter (ap (λ t. String.◌∷◌ c t) (inside_again s).0),
    rw letter (ap (λ t. String.◌∷◌ " " (String.◌∷◌ c t)) (inside_again s).0),
  )
]

start_again : (s : String) → normalize_from start (normalize_from start s) ≡ normalize_from start s
unfolding normalize_from
start_again String.[] = refl
start_again (String.◌∷◌ c s) = elim (Bool-cases (is_space (code c))) [
  | inl space ↦ rw space (start_again s)
  | inr letter ↦ rw letter (rw letter (ap (λ t. String.◌∷◌ c t) (inside_again s).0))
]

-- Normalising twice is normalising once.
pub normalize_whitespace_idempotent :
    (value : String)
    → normalize_whitespace (normalize_whitespace value) ≡ normalize_whitespace value
unfolding normalize_whitespace
normalize_whitespace_idempotent value = start_again value
