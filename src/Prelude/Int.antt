-- ===== src/Prelude/Int.antt =====
-- Signed machine words.
use Prim.Native.String.{String}
use mathlib.Core.List.{[], ◌∷◌}
use eval_python.Prelude.Text.{display, format}
use Prim.Native.Nat.{ℕ, suc, ◌-◌, ◌%◌, ◌^◌}
use mathlib.Core.Bool.{Bool}
use eval_python.Prelude.Tests.{leb}

-- `negsuc n` is -(n + 1).
pub data ℤ : Type 0 where
  pos : ℕ → ℤ
  negsuc : ℕ → ℤ

-- the 64 bits of a number, as an unsigned number
abbrev pub bits_64 : ℤ → ℕ
bits_64 (pos n) = n % 2 ^ 64
bits_64 (negsuc n) = (2 ^ 64 - suc n % 2 ^ 64) % 2 ^ 64

-- whether 64 bits stand for a negative `i64`
abbrev pub is_negative_64 : ℕ → Bool
is_negative_64 bits = leb (2 ^ 63) bits

-- `{}` of a number with a sign
abbrev pub display_int : ℤ → String
display_int (pos n) = display n
display_int (negsuc n) = format ("-" ∷ display (suc n) ∷ [])
