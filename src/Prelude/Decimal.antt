-- ===== src/Prelude/Decimal.antt =====
-- Reading back the numbers that `{}` writes.
use Prim.Native.Nat.{ℕ, zero, suc, ◌+◌, ◌-◌, ◌*◌, ◌/◌, ◌%◌, ◌<◌, ◌≤◌}
use Prim.Native.Char.{Char, code}
use Prim.Native.String.{String, ◌++◌}
use Prim.Native.String.append.{cons, nil}
use mathlib.Core.Bool.{Bool, true, false, ◌&&◌}
use mathlib.Core.Option.{Option, none, some}
use mathlib.Core.Path.{◌≡◌, refl, ap, ◌∙◌}
use mathlib.Core.Logic.{inl, inr}
use native.Mathlib.Omega.{arith}
use eval_python.Prelude.Tests.{leb, ◌==◌, if◌then◌else◌, Bool-cases}
use eval_python.Prelude.Int.{ℤ, pos, negsuc, display_int}
use eval_python.Prelude.Text.{digit, digits_before, display}

abbrev pub is_digit : ℕ → Bool
is_digit c = leb b'0' c && leb c b'9'

-- the digits of a text, behind those of `n`
unfoldable pub read_digits : ℕ → String → Option ℕ
read_digits n String.[] = some n
read_digits n (String.◌∷◌ c s) =
    let more = read_digits (n * 10 + (code c - b'0')) s in if is_digit (code c) then more else none

digit-code : (d : ℕ) → d < 10 → (c : Char) × (digit d ≡ String.◌∷◌ c "") × (code c ≡ b'0' + d)
unfolding digit
digit-code zero h = ("0", refl, refl)
digit-code (suc zero) h = ("1", refl, refl)
digit-code (suc (suc zero)) h = ("2", refl, refl)
digit-code (suc (suc (suc zero))) h = ("3", refl, refl)
digit-code (suc (suc (suc (suc zero)))) h = ("4", refl, refl)
digit-code (suc (suc (suc (suc (suc zero))))) h = ("5", refl, refl)
digit-code (suc (suc (suc (suc (suc (suc zero)))))) h = ("6", refl, refl)
digit-code (suc (suc (suc (suc (suc (suc (suc zero))))))) h = ("7", refl, refl)
digit-code (suc (suc (suc (suc (suc (suc (suc (suc zero)))))))) h = ("8", refl, refl)
digit-code (suc (suc (suc (suc (suc (suc (suc (suc (suc zero))))))))) h = ("9", refl, refl)
digit-code (suc (suc (suc (suc (suc (suc (suc (suc (suc (suc n)))))))))) h =
    ("9", refl, omega (arith, h))

is_digit-lt : (d : ℕ) → d < 10 → is_digit (b'0' + d) ≡ true
is_digit-lt d h = ground arith

read_digits-digit :
    (n d : ℕ) (s : String) → d < 10 → read_digits n (digit d ++ s) ≡ read_digits (n * 10 + d) s
unfolding read_digits
read_digits-digit n d s h =
    let (c, is_c, value) = digit-code d h in
    rw (is_c, cons c "" s, nil s, value, is_digit-lt d h) (ap (λ k. read_digits k s) (omega arith))

lt_ten : (fuel n : ℕ) → (n == 0) ≡ false → n ≤ suc fuel → n / 10 ≤ fuel
lt_ten fuel n digits_left h = let some_left : 0 < n = ground (arith, digits_left) in omega arith

read_digits-display_loop :
    (fuel n : ℕ) (out : String)
    → n ≤ fuel
    → read_digits 0 (digits_before fuel n out) ≡ read_digits n out
unfolding digits_before
read_digits-display_loop zero n out h = ap (λ k. read_digits k out) (omega (arith, h))
read_digits-display_loop (suc fuel) n out h = elim (Bool-cases (n == 0)) [
  | inl zero_left ↦
      let none_left : n ≡ 0 = ground (arith, zero_left) in
      rw zero_left (ap (λ k. read_digits k out) (omega (arith, none_left)))
  | inr digits_left ↦ rw digits_left (
      read_digits-display_loop fuel (n / 10) (digit (n % 10) ++ out) (lt_ten fuel n digits_left h)
      ∙ read_digits-digit (n / 10) (n % 10) out (omega arith)
      ∙ ap (λ k. read_digits k out) (omega arith))
]

pub read_digits-display : (n : ℕ) → read_digits 0 (display n) ≡ some n
unfolding display read_digits
read_digits-display n = elim (Bool-cases (n == 0)) [
  | inl zero_left ↦ rw zero_left (ground (arith, zero_left))
  | inr digits_left ↦ rw digits_left (read_digits-display_loop n n "" (omega arith))
]

negative : Option ℕ → Option ℤ
negative none = none
negative (some zero) = some (pos zero)
negative (some (suc n)) = some (negsuc n)

positive : Option ℕ → Option ℤ
positive none = none
positive (some n) = some (pos n)

-- a number that may have a minus in front
unfoldable pub read_int : String → Option ℤ
unfolding negative positive read_digits
read_int String.[] = some (pos zero)
read_int (String.◌∷◌ c s) =
    if code c == b'-' then negative (read_digits 0 s) else positive (read_digits 0 (String.◌∷◌ c s))

no_minus : (c : ℕ) → is_digit c ≡ true → (c == b'-') ≡ false
no_minus c h = ground arith

read_int-digits : (s : String) {n : ℕ} → read_digits 0 s ≡ some n → read_int s ≡ some (pos n)
unfolding read_int positive read_digits
read_int-digits String.[] h = ap positive h
read_int-digits (String.◌∷◌ c s) h = elim (Bool-cases (is_digit (code c))) [
  | inl one_more ↦ rw (no_minus (code c) one_more) (ap positive h)
  | inr none_more ↦ cc (rw none_more at h)
]

pub read_int-display_int : (i : ℤ) → read_int (display_int i) ≡ some i
unfolding read_int negative
read_int-display_int (pos n) = read_int-digits (display n) (read_digits-display n)
read_int-display_int (negsuc n) =
    rw (cons "-" "" (display (suc n)), nil (display (suc n)), read_digits-display (suc n)) refl
