-- ===== src/Prelude/Dict.antt =====
-- Go's maps as association lists, over keys with a Boolean equality.
use Prim.Native.String.{String}
use mathlib.Core.Path.{◌≡◌, refl}
use mathlib.Core.Logic.{◌↔◌}
use mathlib.Core.Bool.{Bool, true}
use mathlib.Core.Option.{Option, none, some}
use mathlib.Core.List.{List, [], ◌∷◌}
use native.Mathlib.Omega.{arith}
use text.Mathlib.Text.{◌==◌ as text_eq}
use text.Mathlib.TextEquality.{eq_iff}
use works_on_my_whiteboard.Prelude.Tests.{if◌then◌else◌}

-- A type of keys, with Go's == on them.
pub record Key {ℓ} (K : Type ℓ) : Type ℓ where
  pub same : K → K → Bool
  pub same_iff : (j k : K) → (same j k ≡ true) ↔ (j ≡ k)

abbrev pub str_eq : String → String → Bool
str_eq = text_eq

pub str_eq_iff : (s t : String) → (str_eq s t ≡ true) ↔ (s ≡ t)
str_eq_iff = eq_iff

instance abbrev pub string_key : Key String
string_key = record { same = str_eq; same_iff = str_eq_iff }

module _ {ℓ κ} {K : Type ℓ} {V : Type κ} ⦃key : Key K⦄ where
  -- dict[k], if it is there.
  unfoldable pub lookup : K → List (K × V) → Option V
  lookup k [] = none
  lookup k (entry ∷ dict) = if key.same entry.0 k then some entry.1 else lookup k dict

  -- dict[k] = v
  unfoldable pub insert : K → V → List (K × V) → List (K × V)
  insert k v [] = (k, v) ∷ []
  insert k v (entry ∷ dict) = if key.same entry.0 k then (k, v) ∷ dict else entry ∷ insert k v dict

  pub lookup-insert :
      (k j : K) (v : V) (dict : List (K × V))
      → lookup j (insert k v dict) ≡ (if key.same k j then some v else lookup j dict)
  unfolding lookup insert
  lookup-insert k j v [] = refl
  lookup-insert k j v (entry ∷ dict) =
      let (i, w) = entry in
      ground (arith, key.same_iff i j, key.same_iff i k, key.same_iff k j, lookup-insert k j v dict)
