-- ===== src/Prelude/Text.antt =====
-- The operations of `str`, `String` and `Path` that the source uses, on native texts. A text is its
-- sequence of characters; where Rust counts bytes, a character below 128 is one byte.
use Prim.Native.Nat.{ℕ, zero, suc, ◌/◌, ◌%◌}
use Prim.Native.Char.{Char, code}
use Prim.Native.String.{String, ◌++◌}
use mathlib.Core.Bool.{Bool, true, ◌||◌}
use mathlib.Core.List.{List, [], ◌∷◌}
use mathlib.Core.Path.{◌≡◌, refl}
use text.Mathlib.Text.{◌==◌ as str_beq}
use eval_python.Prelude.Tests.{◌==◌, if◌then◌else◌}

-- `==` of texts
abbrev pub str_eq : String → String → Bool
str_eq s t = str_beq s t

-- `format!` on the pieces of its text
abbrev pub format : List String → String
format [] = ""
format (s ∷ []) = s
format (s ∷ t ∷ ss) = s ++ format (t ∷ ss)

-- `s.ends_with(suffix)`
unfoldable pub ends_with : String → String → Bool
ends_with String.[] suffix = str_eq "" suffix
ends_with (String.◌∷◌ c s) suffix = str_eq (String.◌∷◌ c s) suffix || ends_with s suffix

unfoldable pub cons_head : Char → List String → List String
cons_head c [] = []
cons_head c (p ∷ ps) = String.◌∷◌ c p ∷ ps

-- `s.split(sep)` for a separator of one character, given by its number
unfoldable pub split : String → ℕ → List String
unfolding cons_head
split String.[] sep = "" ∷ []
split (String.◌∷◌ c s) sep =
    let rest = split s sep in if code c == sep then "" ∷ rest else cons_head c rest

-- the decimal digit of a number below ten
unfoldable pub digit : ℕ → String
digit zero = "0"
digit (suc zero) = "1"
digit (suc (suc zero)) = "2"
digit (suc (suc (suc zero))) = "3"
digit (suc (suc (suc (suc zero)))) = "4"
digit (suc (suc (suc (suc (suc zero))))) = "5"
digit (suc (suc (suc (suc (suc (suc zero)))))) = "6"
digit (suc (suc (suc (suc (suc (suc (suc zero))))))) = "7"
digit (suc (suc (suc (suc (suc (suc (suc (suc zero)))))))) = "8"
digit (suc (suc (suc (suc (suc (suc (suc (suc (suc n))))))))) = "9"

-- The digits of `n` before `out`. Each round divides by ten, so `n` rounds are enough.
unfoldable pub digits_before : ℕ → ℕ → String → String
digits_before zero n out = out
digits_before (suc fuel) n out =
    let more = digits_before fuel (n / 10) (digit (n % 10) ++ out) in if n == 0 then out else more

-- `{}` of an unsigned number
unfoldable pub display : ℕ → String
unfolding digits_before digit
display n = if n == 0 then "0" else digits_before n n ""

split_test : split "/src:/dst:" b':' ≡ "/src" ∷ "/dst" ∷ "" ∷ []
unfolding split
split_test = refl

display_test : display 18446744073709551615 ≡ "18446744073709551615"
unfolding display
display_test = refl

ends_with_test : ends_with "main.S" ".S" ≡ true
unfolding ends_with
ends_with_test = refl
