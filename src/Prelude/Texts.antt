-- ===== src/Prelude/Texts.antt =====
-- `str.strip`: a text without the white space at its ends.
use Prim.Native.Nat.{ℕ}
use Prim.Native.Char.{Char, code}
use Prim.Native.String.{String, [], ◌∷◌}
use mathlib.Core.Bool.{Bool, ◌&&◌, ◌||◌}
use lkm_service.Prelude.Tests.{leb, nat_eqb, if◌then◌else◌}

abbrev between : ℕ → ℕ → ℕ → Bool
between a b n = leb a n && leb n b

-- `str.isspace` of one character.
abbrev pub is_space : Char → Bool
is_space c =
    let n = code c in
    between 9 13 n
    || between 28 32 n
    || nat_eqb n 133
    || nat_eqb n 160
    || nat_eqb n 5760
    || between 8192 8202 n
    || between 8232 8233 n
    || nat_eqb n 8239
    || nat_eqb n 8287
    || nat_eqb n 12288

unfoldable pub strip_start : String → String
strip_start [] = []
strip_start (c ∷ s) = let rest = strip_start s in if is_space c then rest else c ∷ s

abbrev add_start : Char → String → String
add_start c [] = if is_space c then [] else c ∷ []
add_start c (d ∷ s) = c ∷ d ∷ s

unfoldable pub strip_end : String → String
strip_end [] = []
strip_end (c ∷ s) = add_start c (strip_end s)

abbrev pub strip : String → String
strip s = strip_end (strip_start s)
