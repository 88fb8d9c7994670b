-- ===== src/Prelude/Errors.antt =====
-- `anyhow::Result` and panics: an error is its cause under the contexts that were attached, the
-- outermost first.
use Prim.Native.Nat.{ℕ}
use Prim.Native.String.{String}
use mathlib.Core.Path.{◌≡◌, refl, ap, subst}
use mathlib.Core.List.{List, [], ◌∷◌}
use mathlib.Core.Option.{Option, none, some}

pub data Cause : Type 0 where
  -- `bail!` and `anyhow!`
  message : String → Cause
  -- a nix `Errno`, by its number
  errno : ℕ → Cause
  -- a standard library error, by its text
  io : String → Cause

pub record Error : Type 0 where
  pub contexts : List String
  pub cause : Cause

pub data Outcome {ℓ} (A : Type ℓ) : Type ℓ where
  ok : A → Outcome A
  err : Error → Outcome A
  panicked : Outcome A

module _ {ℓ κ} {A : Type ℓ} {B : Type κ} where
  -- `r?`, and what follows
  abbrev pub and_then : Outcome A → (A → Outcome B) → Outcome B
  and_then (ok value) next = next value
  and_then (err why) next = err why
  and_then panicked next = panicked

infixl 5 ◌>>=◌
abbrev pub ◌>>=◌ {ℓ κ} : {A : Type ℓ} {B : Type κ} → Outcome A → (A → Outcome B) → Outcome B
r >>= next = and_then r next

infixl 5 ◌>>◌
abbrev pub ◌>>◌ {κ} : {B : Type κ} → Outcome (Unit {0}) → Outcome B → Outcome B
first >> second = and_then first (λ _. second)

-- `bail!(text)`, `Err(anyhow!(text))`
abbrev pub bail {ℓ} : {A : Type ℓ} → String → Outcome A
bail text = err (record { contexts = []; cause = message text })

-- `.context(text)`
abbrev pub with_context {ℓ} : {A : Type ℓ} → String → Outcome A → Outcome A
with_context text (ok a) = ok a
with_context text (err e) = err (record e { contexts = text ∷ e.contexts })
with_context text panicked = panicked

-- `option.ok_or(anyhow!(text))`
abbrev pub ok_or {ℓ} : {A : Type ℓ} → Option A → String → Outcome A
ok_or none text = bail text
ok_or (some a) text = ok a

-- what a call of the system returns
pub data Io {ℓ} (A : Type ℓ) : Type ℓ where
  done : A → Io A
  failed : Cause → Io A

-- `?` on such a result
abbrev pub attempt {ℓ} : {A : Type ℓ} → Io A → Outcome A
attempt (done a) = ok a
attempt (failed why) = err (record { contexts = []; cause = why })

module _ {ℓ κ} {A : Type ℓ} {B : Type κ} where
  -- Where the whole ends well, both of its parts do.
  pub >>=-eq-ok :
      (r : Outcome A) (next : A → Outcome B) {last : B}
      → (r >>= next) ≡ ok last
      → (value : A) × (r ≡ ok value) × (next value ≡ ok last)
  >>=-eq-ok (ok value) next whole = (value, refl, whole)
  >>=-eq-ok (err why) next whole = cc
  >>=-eq-ok panicked next whole = cc

pub with_context-eq-ok {ℓ} :
    {A : Type ℓ} (text : String) (m : Outcome A) {a : A} → with_context text m ≡ ok a → m ≡ ok a
with_context-eq-ok text (ok a) h = h
with_context-eq-ok text (err e) h = cc
with_context-eq-ok text panicked h = cc

-- the value, or another one
abbrev value_or {ℓ} : {A : Type ℓ} → A → Outcome A → A
value_or d (ok a) = a
value_or d (err e) = d
value_or d panicked = d

pub ok-injective {ℓ} : {A : Type ℓ} {a b : A} → ok a ≡ ok b → a ≡ b
ok-injective {a} e = ap (value_or a) e

pub attempt-eq-ok {ℓ} : {A : Type ℓ} (r : Io A) {a : A} → attempt r ≡ ok a → r ≡ done a
attempt-eq-ok (done a) h = ap done (ok-injective h)
attempt-eq-ok (failed why) h = cc

-- `Q` holds of the value, if there is one.
abbrev pub OkHolds {ℓ κ} : {A : Type ℓ} → (A → Type κ) → Outcome A → Type κ
OkHolds Q (ok a) = Q a
OkHolds Q (err e) = Unit
OkHolds Q panicked = Unit

pub OkHolds-ok {ℓ κ} :
    {A : Type ℓ} (Q : A → Type κ) (m : Outcome A) {a : A} → OkHolds Q m → m ≡ ok a → Q a
OkHolds-ok Q (ok a) h e = subst Q (ok-injective e) h
OkHolds-ok Q (err x) h e = cc
OkHolds-ok Q panicked h e = cc

pub OkHolds->>= {ℓ κ μ} :
    {A : Type ℓ} {B : Type κ} (Q : B → Type μ) (m : Outcome A) (f : A → Outcome B)
    → ((a : A) → m ≡ ok a → OkHolds Q (f a))
    → OkHolds Q (m >>= f)
OkHolds->>= Q (ok a) f h = h a refl
OkHolds->>= Q (err e) f h = tt
OkHolds->>= Q panicked f h = tt
