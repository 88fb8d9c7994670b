-- ===== src/Prelude/Traced.antt =====
-- Code that calls the system: the calls that it makes, in order, and how it ends. What was called
-- before an error stays called.
use mathlib.Core.List.{List, [], ◌∷◌, ◌++◌, filter_map, filter_map-append}
use mathlib.Core.Option.{Option}
use mathlib.Core.Path.{◌≡◌, refl, ap, ◌∙◌}
use eval_python.Prelude.Lists.{All, All-append}
use eval_python.Prelude.Errors.{
  Outcome, ok, err, panicked, with_context, with_context-eq-ok, ok-injective,
}
use Prim.Native.String.{String}

abbrev pub Traced {ℓ} : Type 0 → Type ℓ → Type ℓ
Traced C A = List C × Outcome A

abbrev pub continue {ℓ κ} :
    {C : Type 0} {A : Type ℓ} {B : Type κ} → List C → Outcome A → (A → Traced C B) → Traced C B
continue calls (ok a) f = let (more, r) = f a in (calls ++ more, r)
continue calls (err e) f = (calls, err e)
continue calls panicked f = (calls, panicked)

infixl 5 ◌>>=◌
infixl 5 ◌>>◌
abbrev pub ◌>>=◌ {ℓ κ} :
    {C : Type 0} {A : Type ℓ} {B : Type κ} → Traced C A → (A → Traced C B) → Traced C B
m >>= f = continue m.0 m.1 f

abbrev pub ◌>>◌ {ℓ} : {C : Type 0} {B : Type ℓ} → Traced C (Unit {0}) → Traced C B → Traced C B
m >> k = m >>= λ _. k

abbrev pub pure {ℓ} : {C : Type 0} {A : Type ℓ} → A → Traced C A
pure a = ([], ok a)

-- one call and its result
abbrev pub call {ℓ} : {C : Type 0} {A : Type ℓ} → C → Outcome A → Traced C A
call c r = (c ∷ [], r)

-- a result that takes no call
abbrev pub lift {ℓ} : {C : Type 0} {A : Type ℓ} → Outcome A → Traced C A
lift r = ([], r)

abbrev pub context {ℓ} : {C : Type 0} {A : Type ℓ} → String → Traced C A → Traced C A
context text m = (m.0, with_context text m.1)

pub continue-eq-ok {ℓ κ} :
    {C : Type 0} {A : Type ℓ} {B : Type κ} (calls : List C) (r : Outcome A) (f : A → Traced C B)
    {b : B}
    → (continue calls r f).1 ≡ ok b
    → (a : A) × (r ≡ ok a) × ((f a).1 ≡ ok b) × ((continue calls r f).0 ≡ calls ++ (f a).0)
continue-eq-ok calls (ok a) f h = (a, refl, h, refl)
continue-eq-ok calls (err e) f h = cc
continue-eq-ok calls panicked f h = cc

-- Inversion of a bind that ends well.
pub >>=-eq-ok {ℓ κ} :
    {C : Type 0} {A : Type ℓ} {B : Type κ} (m : Traced C A) (f : A → Traced C B) {b : B}
    → (m >>= f).1 ≡ ok b
    → (a : A) × (m.1 ≡ ok a) × ((f a).1 ≡ ok b) × ((m >>= f).0 ≡ m.0 ++ (f a).0)
>>=-eq-ok m f h = continue-eq-ok m.0 m.1 f h

-- The calls made are these, and `Q` holds of each.
abbrev pub Makes {ℓ κ} : {C : Type 0} {A : Type ℓ} → (C → Type κ) → List C → Traced C A → Type κ
Makes Q calls m = (m.0 ≡ calls) × All Q calls

pub >>-Makes {ℓ κ} :
    {C : Type 0} {B : Type ℓ} (Q : C → Type κ) (m : Traced C (Unit {0})) (k : Traced C B)
    (calls more : List C) {b : B}
    → (m.1 ≡ ok tt → Makes Q calls m)
    → (k.1 ≡ ok b → Makes Q more k)
    → (m >> k).1 ≡ ok b
    → Makes Q (calls ++ more) (m >> k)
>>-Makes Q m k calls more first next h =
    let (a, e, e', trace) = >>=-eq-ok m (λ _. k) h in
    let (same, held) = first e in
    let (same', held') = next e' in
    (trace ∙ ap (λ cs. cs ++ k.0) same ∙ ap (◌++◌ calls) same', All-append Q calls more held held')

pub context-Makes {ℓ κ} :
    {C : Type 0} {A : Type ℓ} (Q : C → Type κ) (text : String) (m : Traced C A) (calls : List C)
    {a : A}
    → (m.1 ≡ ok a → Makes Q calls m)
    → (context text m).1 ≡ ok a
    → Makes Q calls (context text m)
context-Makes Q text m calls made h = made (with_context-eq-ok text m.1 h)

continue-of_ok {ℓ κ} :
    {C : Type 0} {A : Type ℓ} {B : Type κ} (calls : List C) (r : Outcome A) (f : A → Traced C B)
    {a : A}
    → r ≡ ok a
    → (continue calls r f).1 ≡ (f a).1
continue-of_ok calls (ok b) f h = ap (λ c. (f c).1) (ok-injective h)
continue-of_ok calls (err e) f h = cc
continue-of_ok calls panicked f h = cc

-- The result of a bind whose first part ends well.
pub >>=-of_ok {ℓ κ} :
    {C : Type 0} {A : Type ℓ} {B : Type κ} (m : Traced C A) (f : A → Traced C B) {a : A}
    → m.1 ≡ ok a
    → (m >>= f).1 ≡ (f a).1
>>=-of_ok m f h = continue-of_ok m.0 m.1 f h

-- None of the calls counts, as none of the two parts does.
pub continue-filter_map {ℓ κ} :
    {C M : Type 0} {A : Type ℓ} {B : Type κ} (p : C → Option M) (calls : List C) (r : Outcome A)
    (f : A → Traced C B)
    → filter_map p calls ≡ []
    → ((a : A) → filter_map p (f a).0 ≡ [])
    → filter_map p (continue calls r f).0 ≡ []
continue-filter_map p calls (ok a) f first next =
    rw (filter_map-append p calls (f a).0, first, next a)
continue-filter_map p calls (err e) f first next = first
continue-filter_map p calls panicked f first next = first
