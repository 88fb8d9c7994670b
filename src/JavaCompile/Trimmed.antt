-- ===== src/JavaCompile/Trimmed.antt =====
-- `trim_extension` of src/java_compile.rs.
use Prim.Native.String.{◌++◌ as str_append}
use text.Mathlib.TextLemmas.{nil-append, cons-append}
use eval_python.Prelude.{
  ℕ, suc, ◌+◌, ◌≡◌, refl, ap, arith, false, Bool-cases, String, some, str_eq, eq_iff, eq_refl, inl,
  inr,
}
use eval_python.JavaCompile.{strip_suffix, trim_extension}

size : String → ℕ
size String.[] = 0
size (String.◌∷◌ c s) = suc (size s)

size-append : (s t : String) → size (str_append s t) ≡ size s + size t
unfolding size
size-append String.[] t = rw (nil-append t) (omega arith)
size-append (String.◌∷◌ c s) t = rw (cons-append c s t) (omega (arith, size-append s t))

-- A text with another one in front of it is another text.
longer : (s t u : String) → size s ≡ suc (size u) + size t → str_eq s t ≡ false
longer s t u h = elim (Bool-cases (str_eq s t)) [
  | inl same ↦ absurd (omega (arith, h, ap size ((eq_iff s t).0 same)))
  | inr other ↦ other
]

strip_suffix_self : (suffix : String) → strip_suffix suffix suffix ≡ some ""
unfolding strip_suffix
strip_suffix_self String.[] = refl
strip_suffix_self (String.◌∷◌ c s) = rw (eq_refl (String.◌∷◌ c s))

strip_suffix-append : (s suffix : String) → strip_suffix (str_append s suffix) suffix ≡ some s
unfolding strip_suffix size
strip_suffix-append String.[] suffix = rw (nil-append suffix) (strip_suffix_self suffix)
strip_suffix-append (String.◌∷◌ c s) suffix =
    let other =
      longer (String.◌∷◌ c (str_append s suffix)) suffix s (omega (arith, size-append s suffix)) in
    rw (cons-append c s suffix, other, strip_suffix-append s suffix)

pub trim_extension-append :
    (s extension : String) → trim_extension (str_append s extension) extension ≡ s
unfolding trim_extension
trim_extension-append s extension = rw (strip_suffix-append s extension)
