-- ===== src/Options/BindCases.antt =====
-- What `--bind` descriptions turn into, on every branch.
use Prim.Native.Char.{Char, code}
use eval_python.Prelude.{
  IsBelow, ◌≤◌, ◌<◌, ltb, String, List, [], ◌∷◌, ◌≡◌, ◌≢◌, refl, ◌⊎◌, inl, inr, arith, All, Outcome,
  ok, bail, panicked, OkHolds, OkHolds-ok, if◌then◌else◌, Bool-cases, ap, OkHolds->>=, format,
  is_absolute, join, split, length,
}
use eval_python.Options.Types.{MountArgs, bind_rdonly}
use eval_python.Options.Binds.{bind_of_parts, parse_bind, parse_binds, without_first_byte}

module _ (P : MountArgs → Type 0) (debug : String → String) (rootfs : String)
    (holds : (source target : String) → P (bind_rdonly source target)) where
  bind_of_parts-holds :
      (bind : String) (parts : List String) → OkHolds P (bind_of_parts debug rootfs bind parts)
  unfolding bind_of_parts
  bind_of_parts-holds bind [] = tt
  bind_of_parts-holds bind (source ∷ []) = tt
  bind_of_parts-holds bind (source ∷ target ∷ []) =
      OkHolds->>= P (without_first_byte target) _ λ relative _. holds source (join rootfs relative)
  bind_of_parts-holds bind (source ∷ target ∷ more ∷ rest) = tt

  pub parse_binds-All : (binds : List String) → OkHolds (All P) (parse_binds debug rootfs binds)
  unfolding parse_binds
  parse_binds-All [] = tt
  parse_binds-All (bind ∷ rest) = OkHolds->>= (All P) (parse_bind debug rootfs bind) _ λ mount e.
      OkHolds->>= (All P) (parse_binds debug rootfs rest) _ λ mounts es. (
        OkHolds-ok P _ (bind_of_parts-holds bind (split bind b':')) e,
        OkHolds-ok (All P) _ (parse_binds-All rest) es,
      )

-- The description has two parts and the second begins with a character of one byte: a bind mount that
-- asks for read-only. Its target is the rest of the second part, joined to the root of the jail, unless
-- this rest begins with a separator again: then it is that path of the host.
abbrev pub IsAccepted : String → List String → Outcome MountArgs → Type 0
IsAccepted rootfs parts r =
    (source : String) × (c : Char) × (relative : String) × (parts
      ≡ source ∷ String.◌∷◌ c relative ∷ [])
    × (code c < 128)
    × (r
        ≡ ok (bind_rdonly source (if is_absolute relative then relative else join rootfs relative)))

-- The description has two parts, and the second is empty or begins with a longer character.
abbrev pub IsPanic : List String → Outcome MountArgs → Type 0
IsPanic parts r =
    (source : String) × (target : String) × (parts ≡ source ∷ target ∷ [])
    × ((target ≡ "")
        ⊎ ((c : Char) × (relative : String) × (target ≡ String.◌∷◌ c relative) × (128 ≤ code c)))
    × (r ≡ panicked)

-- The description has fewer parts than two, or more.
abbrev pub IsRefused : (String → String) → String → List String → Outcome MountArgs → Type 0
IsRefused debug bind parts r =
    (length parts ≢ 2) × (r ≡ bail (format ("invalid bind description: " ∷ debug bind ∷ [])))

module _ (debug : String → String) (rootfs bind : String) where
  join_cases :
      (relative : String)
      → join rootfs relative ≡ (if is_absolute relative then relative else join rootfs relative)
  unfolding join
  join_cases relative = ground arith

  target_cases :
      (source target : String)
      → let parts = source ∷ target ∷ [] in
        let r = bind_of_parts debug rootfs bind parts in IsAccepted rootfs parts r ⊎ IsPanic parts r
  unfolding bind_of_parts without_first_byte
  target_cases source String.[] = inr (source, "", refl, inl refl, refl)
  target_cases source (String.◌∷◌ c relative) = elim (Bool-cases (ltb (code c) 128)) [
    | inl small ↦ inl (
      source,
      c,
      relative,
      refl,
      ground arith,
      rw small (ap (λ t. ok (bind_rdonly source t)) (join_cases relative)),
    )
    | inr wide ↦
        inr (source, String.◌∷◌ c relative, refl, inr (c, relative, refl, ground arith), rw wide)
  ]

  parts_cases :
      (parts : List String)
      → let r = bind_of_parts debug rootfs bind parts in
        IsAccepted rootfs parts r ⊎ (IsPanic parts r ⊎ IsRefused debug bind parts r)
  unfolding bind_of_parts
  parts_cases [] = inr (inr ((λ e. omega arith), refl))
  parts_cases (source ∷ []) = inr (inr ((λ e. omega arith), refl))
  parts_cases (source ∷ target ∷ []) = elim (target_cases source target) [
    | inl accepted ↦ inl accepted
    | inr panics ↦ inr (inl panics)
  ]
  parts_cases (source ∷ target ∷ more ∷ rest) = inr (inr ((λ e. omega arith), refl))

-- A description is accepted, makes the program panic or is refused, according to its parts between
-- the colons, as `IsAccepted`, `IsPanic` and `IsRefused` say.
pub parse_bind_lem :
    (debug : String → String) (rootfs bind : String)
    → let parts = split bind b':' in
      let r = parse_bind debug rootfs bind in
      IsAccepted rootfs parts r ⊎ (IsPanic parts r ⊎ IsRefused debug bind parts r)
unfolding parse_bind
parse_bind_lem debug rootfs bind = parts_cases debug rootfs bind (split bind b':')

-- `SOURCE:/RELATIVE`, where the relative path begins with no second separator and has no `..`.
abbrev pub IsInside : String → Type 0
IsInside bind =
    (source : String) × (c : Char) × (relative : String) × (split bind b':'
      ≡ source ∷ String.◌∷◌ c relative ∷ [])
    × IsBelow relative

module _ (P : MountArgs → Type 0) (debug : String → String) (rootfs : String)
    (holds : (source relative : String)
      → IsBelow relative
      → P (bind_rdonly source (join rootfs relative))) where
  parse_bind-inside : (bind : String) → IsInside bind → OkHolds P (parse_bind debug rootfs bind)
  unfolding parse_bind without_first_byte
  parse_bind-inside bind (source, c, relative, parts, inside) =
      rw parts (elim (Bool-cases (ltb (code c) 128)) [
        | inl small ↦ rw small (holds source relative inside)
        | inr wide ↦ rw wide tt
      ])

  pub parse_binds-inside :
      (binds : List String) → All IsInside binds → OkHolds (All P) (parse_binds debug rootfs binds)
  unfolding parse_binds
  parse_binds-inside [] h = tt
  parse_binds-inside (bind ∷ rest) (inside, more) =
      OkHolds->>= (All P) (parse_bind debug rootfs bind) _ λ mount e.
        OkHolds->>= (All P) (parse_binds debug rootfs rest) _ λ mounts es. (
          OkHolds-ok P _ (parse_bind-inside bind inside) e,
          OkHolds-ok (All P) _ (parse_binds-inside rest more) es,
        )
