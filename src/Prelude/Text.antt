-- ===== src/Prelude/Text.antt =====
-- Text as the source handles it: code units, white space and `trim`.
use Prim.Native.Nat.{ℕ, ◌+◌}
use Prim.Native.Char.{Char, code}
use Prim.Native.String.{String, [], ◌∷◌}
use mathlib.Core.Bool.{Bool, true, false, ◌&&◌, ◌||◌}
use reinforcement_learning_c.Prelude.Tests.{leb, ltb, ◌==◌, nat_eq, if◌then◌else◌}

-- The white space and line ends that `trim` removes.
is_space : Char → Bool
is_space c =
    (leb 9 (code c) && leb (code c) 13)
    || code c == 32
    || code c == 160
    || code c == 0x1680
    || (leb 0x2000 (code c) && leb (code c) 0x200a)
    || code c == 0x2028
    || code c == 0x2029
    || code c == 0x202f
    || code c == 0x205f
    || code c == 0x3000
    || code c == 0xfeff

-- `!s`, for a text.
abbrev pub is_empty : String → Bool
is_empty [] = true
is_empty (c ∷ s) = false

trim_start : String → String
trim_start [] = []
trim_start (c ∷ s) = let rest = trim_start s in if is_space c then rest else (c ∷ s)

trim_end : String → String
trim_end [] = []
trim_end (c ∷ s) = let rest = trim_end s in if is_space c && is_empty rest then [] else (c ∷ rest)

unfoldable pub trim : String → String
unfolding trim_start trim_end is_space
trim s = trim_end (trim_start s)

-- `!s.trim()`.
unfoldable pub is_blank : String → Bool
unfolding trim
is_blank s = is_empty (trim s)

-- `s.length` counts UTF-16 code units: two for a character beyond the basic plane.
unfoldable pub units : String → ℕ
units [] = 0
units (c ∷ s) = (if ltb 0xffff (code c) then 2 else 1) + units s
