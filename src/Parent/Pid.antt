-- ===== src/Parent/Pid.antt =====
-- `get_pid_from_pidfd` of src/jail/parent.rs.
use Prim.Native.Char.{code}
use mathlib.Core.Option.{some-injective}
use eval_python.Prelude.{
  ℕ, zero, suc, ◌+◌, ◌*◌, ◌-◌, ◌^◌, leb, ◌==◌, ◌≡◌, refl, ap, ◌∙◌, eq_iff, Bool, ◌&&◌, ◌||◌, String,
  Option, none, some, List, [], ◌∷◌, ◌++◌, All, Outcome, ok, err, io, Io, attempt, bail,
  with_context, ◌>>=◌, format, split, str_eq, if◌then◌else◌, ℤ, pos, negsuc, Bool-cases,
  Option-cases, map, inl, inr, ◌⊎◌,
}

-- `char::is_whitespace`
abbrev is_whitespace : ℕ → Bool
is_whitespace c =
    (leb 9 c && leb c 13)
    || c == 32
    || c == 133
    || c == 160
    || c == 5760
    || (leb 8192 c && leb c 8202)
    || c == 8232
    || c == 8233
    || c == 8239
    || c == 8287
    || c == 12288

unfoldable pub trim_start : String → String
trim_start String.[] = ""
trim_start (String.◌∷◌ c s) =
    let rest = trim_start s in if is_whitespace (code c) then rest else String.◌∷◌ c s

unfoldable pub trim_end : String → String
trim_end String.[] = ""
trim_end (String.◌∷◌ c s) =
    let rest = trim_end s in
    if str_eq rest "" && is_whitespace (code c) then "" else String.◌∷◌ c rest

-- the value of some decimal digits after a number
unfoldable pub parse_digits : ℕ → String → Option ℕ
parse_digits n String.[] = some n
parse_digits n (String.◌∷◌ c s) =
    let rest = parse_digits (n * 10 + (code c - 48)) s in
    if leb 48 (code c) && leb (code c) 57 then rest else none

abbrev invalid : Outcome ℤ
invalid = err (record { contexts = []; cause = io "invalid digit found in string" })

abbrev in_range : ℕ → Option ℕ → (ℕ → ℤ) → Outcome ℤ
in_range bound none f = invalid
in_range bound (some n) f =
    if leb n bound
    then ok (f n)
    else err (record { contexts = []; cause = io "number out of range" })

abbrev negative : ℕ → ℤ
negative zero = pos zero
negative (suc n) = negsuc n

abbrev unsigned : String → Outcome ℤ
unsigned String.[] = invalid
unsigned (String.◌∷◌ c s) = in_range (2 ^ 31 - 1) (parse_digits 0 (String.◌∷◌ c s)) pos

abbrev negated : String → Outcome ℤ
negated String.[] = invalid
negated (String.◌∷◌ c s) = in_range (2 ^ 31) (parse_digits 0 (String.◌∷◌ c s)) negative

-- `parse` of an `i32`
unfoldable pub parse_i32 : String → Outcome ℤ
unfolding parse_digits
parse_i32 String.[] =
    err (record { contexts = []; cause = io "cannot parse integer from empty string" })
parse_i32 (String.◌∷◌ c s) =
    if code c == b'+'
    then unsigned s
    else if code c == b'-'
    then negated s
    else unsigned (String.◌∷◌ c s)

-- the value of a line with the label, if it is one
unfoldable pub label_value : List String → Option String
label_value (label ∷ value ∷ []) = if str_eq label "Pid" then some value else none
label_value [] = none
label_value (label ∷ []) = none
label_value (label ∷ value ∷ more ∷ rest) = none

unfoldable pub after_label : String → Option String → Outcome ℤ → Outcome ℤ
unfolding trim_start trim_end parse_i32
after_label fdinfo (some value) rest = parse_i32 (trim_end (trim_start value))
after_label fdinfo none rest = rest

-- the loop over the lines
unfoldable pub find_pid : String → List String → Outcome ℤ
unfolding after_label label_value
find_pid fdinfo [] = bail (format ("Pid label not found: " ∷ fdinfo ∷ []))
find_pid fdinfo (line ∷ lines) =
    let rest = find_pid fdinfo lines in after_label fdinfo (label_value (split line b':')) rest

strip_cr : String → String
strip_cr String.[] = ""
strip_cr (String.◌∷◌ c String.[]) = if code c == b'\r' then "" else String.◌∷◌ c String.[]
strip_cr (String.◌∷◌ c (String.◌∷◌ d s)) = String.◌∷◌ c (strip_cr (String.◌∷◌ d s))

drop_last_empty : List String → List String
drop_last_empty [] = []
drop_last_empty (line ∷ []) = if str_eq line "" then [] else line ∷ []
drop_last_empty (line ∷ next ∷ rest) = line ∷ drop_last_empty (next ∷ rest)

-- `str::lines`
unfoldable pub lines : String → List String
unfolding strip_cr drop_last_empty
lines text = map strip_cr (drop_last_empty (split text b'\n'))

unfoldable pub get_pid : Io String → Outcome ℤ
unfolding find_pid lines
get_pid contents = do
  fdinfo ← with_context "contents of the pidfd" (attempt contents)
  find_pid fdinfo (lines fdinfo)

-- A line without the label, or with another number of colons.
abbrev pub IsOther : String → Type 0
IsOther line = label_value (split line b':') ≡ none

label_lem :
    (parts : List String) {value : String}
    → label_value parts ≡ some value
    → parts ≡ "Pid" ∷ value ∷ []
unfolding label_value
label_lem (label ∷ value ∷ []) h = elim (Bool-cases (str_eq label "Pid")) [
  | inl same ↦
      let label_is : label ≡ "Pid" = (eq_iff label "Pid").0 same in
      let value_is = some-injective _ _ (rw same at h) in
      ap (λ l. l ∷ value ∷ []) label_is ∙ ap (λ v. "Pid" ∷ v ∷ []) value_is
  | inr other ↦ let h' = rw other at h in cc
]
label_lem [] h = cc
label_lem (label ∷ []) h = cc
label_lem (label ∷ value ∷ more ∷ rest) h = cc

-- The number of the first line that has the label and one colon, or an error.
pub find_pid-first :
    (fdinfo : String) (all : List String)
    → (All IsOther all
        × (find_pid fdinfo all ≡ bail (format ("Pid label not found: " ∷ fdinfo ∷ []))))
      ⊎ ((before : List String) × (line value : String) × (after : List String) × (all
            ≡ before ++ line ∷ after)
          × All IsOther before
          × (split line b':' ≡ "Pid" ∷ value ∷ [])
          × (find_pid fdinfo all ≡ parse_i32 (trim_end (trim_start value))))
find_pid-first fdinfo [] = inl (tt, unfold find_pid in refl)
find_pid-first fdinfo (line ∷ rest) = elim (Option-cases (label_value (split line b':'))) [
  | inr (value, found) ↦ inr (
    [],
    line,
    value,
    rest,
    refl,
    tt,
    label_lem (split line b':') found,
    unfold find_pid after_label in rw found,
  )
  | inl other ↦
      let next : find_pid fdinfo (line ∷ rest) ≡ find_pid fdinfo rest =
        unfold find_pid after_label in rw other in
      elim (find_pid-first fdinfo rest) [
        | inl (others, fails) ↦ inl ((other, others), next ∙ fails)
        | inr (before, found, value, after, same, others, parts, result) ↦ inr (
          line ∷ before,
          found,
          value,
          after,
          ap (◌∷◌ line) same,
          (other, others),
          parts,
          next ∙ result,
        )
      ]
]
