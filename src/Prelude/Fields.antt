-- ===== src/Prelude/Fields.antt =====
-- A reader of texts that have one field in each line, a name and a value with a colon between them.
use Prim.Native.Nat.{ℕ, ◌+◌, ◌-◌, ◌*◌}
use Prim.Native.Char.{Char, code}
use Prim.Native.String.{String, ◌++◌}
use Prim.Native.String.append.{cons, nil}
use mathlib.Core.Bool.{Bool, true, false, ◌||◌}
use mathlib.Core.Option.{Option, none, some}
use mathlib.Core.List.{List, ◌∷◌, filter_map, filter_map-cons-some}
use mathlib.Core.Path.{◌≡◌, refl, ap, ◌∙◌, sym}
use mathlib.Core.Logic.{inl, inr}
use native.Mathlib.Omega.{arith}
use text.Mathlib.TextLemmas.{append_assoc}
use eval_python.Prelude.Tests.{◌==◌, if◌then◌else◌, Bool-cases}
use eval_python.Prelude.Text.{split, cons_head, str_eq, display}
use eval_python.Prelude.Decimal.{is_digit, read_digits, read_digits-display}

-- whether a text has the character with this number
unfoldable pub holds : ℕ → String → Bool
holds sep String.[] = false
holds sep (String.◌∷◌ c s) = code c == sep || holds sep s

-- the text before the first such character, and the text after it
unfoldable pub split_once : ℕ → String → Option (String × String)
split_once sep String.[] = none
split_once sep (String.◌∷◌ c s) =
    let rest = split_once sep s in
    if code c == sep
    then some ("", s)
    else elim rest [ none ↦ none | some (a, b) ↦ some (String.◌∷◌ c a, b) ]

abbrev pub fields : String → List (String × String)
fields text = filter_map (split_once b':') (split text b'\n')

-- the value of the first field of this name
abbrev pub lookup : String → List (String × String) → Option String
lookup name List.[] = none
lookup name ((key, value) ∷ rest) =
    let more = lookup name rest in if str_eq key name then some value else more

same_code : (m n : ℕ) → m ≡ n → (m == n) ≡ true
same_code m n h = ground arith

or-false : (a b : Bool) → (a || b) ≡ false → (a ≡ false) × (b ≡ false)
or-false a b h = ground arith

other_digit : (c sep : ℕ) → is_digit c ≡ true → is_digit sep ≡ false → (c == sep) ≡ false
other_digit c sep h other = ground arith

pub holds-append : (sep : ℕ) (s t : String) → holds sep (s ++ t) ≡ (holds sep s || holds sep t)
unfolding holds
holds-append sep String.[] t = rw (nil t) refl
holds-append sep (String.◌∷◌ c s) t = rw (cons c s t, holds-append sep s t) (ground arith)

split-holds :
    (sep : ℕ) (c : Char) (s t : String)
    → code c ≡ sep
    → holds sep s ≡ false
    → split (s ++ String.◌∷◌ c t) sep ≡ s ∷ split t sep
unfolding split holds cons_head
split-holds sep c String.[] t same h = rw (nil (String.◌∷◌ c t), same_code (code c) sep same) refl
split-holds sep c (String.◌∷◌ d s) t same h =
    let (other, rest) = or-false (code d == sep) (holds sep s) h in
    rw (cons d s (String.◌∷◌ c t), split-holds sep c s t same rest, other) refl

split_once-holds :
    (sep : ℕ) (c : Char) (s t : String)
    → code c ≡ sep
    → holds sep s ≡ false
    → split_once sep (s ++ String.◌∷◌ c t) ≡ some (s, t)
unfolding split_once holds
split_once-holds sep c String.[] t same h =
    rw (nil (String.◌∷◌ c t), same_code (code c) sep same) refl
split_once-holds sep c (String.◌∷◌ d s) t same h =
    let (other, rest) = or-false (code d == sep) (holds sep s) h in
    rw (cons d s (String.◌∷◌ c t), split_once-holds sep c s t same rest, other) refl

-- A number that can be read holds nothing but digits.
read_digits-holds :
    (sep n : ℕ) (s : String) {m : ℕ}
    → is_digit sep ≡ false
    → read_digits n s ≡ some m
    → holds sep s ≡ false
unfolding read_digits holds
read_digits-holds sep n String.[] other h = refl
read_digits-holds sep n (String.◌∷◌ c s) other h = elim (Bool-cases (is_digit (code c))) [
  | inl one_more ↦
      rw
        (
          read_digits-holds sep (n * 10 + (code c - b'0')) s other (rw one_more at h),
          other_digit (code c) sep one_more other,
        )
        refl
  | inr none_more ↦ cc (rw none_more at h)
]

pub display-holds : (sep n : ℕ) → is_digit sep ≡ false → holds sep (display n) ≡ false
display-holds sep n other = read_digits-holds sep 0 (display n) other (read_digits-display n)

-- one line of such a text
abbrev pub line : String → String → String
line name value = (name ++ ":") ++ (value ++ "\n")

line-newline :
    (name value rest : String)
    → line name value ++ rest ≡ ((name ++ ":") ++ value) ++ String.◌∷◌ "\n" rest
line-newline name value rest =
    rw
      (
        sym (append_assoc (name ++ ":") value "\n"),
        append_assoc ((name ++ ":") ++ value) "\n" rest,
        cons "\n" "" rest,
        nil rest,
      )
      refl

named-colon : (name value : String) → (name ++ ":") ++ value ≡ name ++ String.◌∷◌ ":" value
named-colon name value = rw (append_assoc name ":" value, cons ":" "" value, nil value) refl

named-holds :
    (name value : String)
    → holds b'\n' name ≡ false
    → holds b'\n' value ≡ false
    → holds b'\n' ((name ++ ":") ++ value) ≡ false
unfolding holds
named-holds name value h k =
    rw (holds-append b'\n' (name ++ ":") value, holds-append b'\n' name ":", h, k) refl

-- A line is read as the field that it was written for, and what is behind it is left.
pub fields-line :
    (name value rest : String)
    → holds b'\n' name ≡ false
    → holds b':' name ≡ false
    → holds b'\n' value ≡ false
    → fields (line name value ++ rest) ≡ (name, value) ∷ fields rest
fields-line name value rest h colon k =
    let text = (name ++ ":") ++ value in
    ap fields (line-newline name value rest)
    ∙ ap (filter_map (split_once b':'))
        (split-holds b'\n' "\n" text rest refl (named-holds name value h k))
    ∙ filter_map-cons-some (split_once b':') text (split rest b'\n') (
        ap (split_once b':') (named-colon name value)
        ∙ split_once-holds b':' ":" name value refl colon)
