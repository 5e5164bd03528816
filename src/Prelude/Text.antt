-- ===== src/Prelude/Text.antt =====
-- Text as the program uses it: compared whole, ordered by code points, and trimmed.
use Prim.Native.Nat.{ℕ}
use Prim.Native.Char.{code}
use Prim.Native.String.{String, ◌++◌}
use mathlib.Core.Bool.{Bool, true, ◌&&◌, ◌||◌}
use mathlib.Core.List.{List, [], ◌∷◌}
use works_on_my_whiteboard.Prelude.Tests.{leb, ◌==◌}

-- The code points of a text. UTF-8 keeps their order, so this orders texts as Go's `<` does.
abbrev pub codes : String → List ℕ
codes String.[] = []
codes (String.◌∷◌ c s) = code c ∷ codes s

-- unicode.IsSpace
abbrev pub is_space : ℕ → Bool
is_space c =
    leb 9 c && leb c 13
    || c == 32
    || c == 0x85
    || c == 0xA0
    || c == 0x1680
    || leb 0x2000 c && leb c 0x200A
    || c == 0x2028
    || c == 0x2029
    || c == 0x202F
    || c == 0x205F
    || c == 0x3000

abbrev pub all_space : List ℕ → Bool
all_space [] = true
all_space (c ∷ cs) = is_space c && all_space cs

-- strings.TrimSpace(s) == ""
unfoldable pub is_blank : String → Bool
is_blank s = all_space (codes s)

-- s + t
abbrev pub join_text : String → String → String
join_text s t = s ++ t
