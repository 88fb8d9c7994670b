-- ===== src/Options/StreamMounts.antt =====
-- The mounts that the standard streams add.
use eval_python.Prelude.{
  ◌≡◌, refl, ◌⊎◌, ok, done, attempt-eq-ok, with_context-eq-ok, String, Option, none, some, inl, inr,
  Bool-cases, ◌==◌, List, [], ◌∷◌, All, OkHolds, OkHolds->>=, attempt, with_context, format, join,
}
use eval_python.Options.Types.{Stdio, MountArgs, Host, bind_rdonly, bind_writable}
use eval_python.Options.Streams.{setup_stdin, setup_stdout, setup_stderr}

-- The file that takes an output: the canonical path of the one that is given, or the null device of the
-- jail's root if none is.
abbrev pub IsSink : Host → String → Option String → String → Type 0
IsSink host rootfs path source =
    ((given : String) × (path ≡ some given) × (host.canonicalize given ≡ done source))
    ⊎ ((path ≡ none) × (source ≡ join rootfs "dev/null"))

module _ (P : MountArgs → Type 0) (host : Host) (rootfs : String) where
  abbrev Added : Stdio × List MountArgs → Type 0
  Added r = All P r.1

  pub setup_stdin-All :
      ((source : String) → P (bind_rdonly source (join rootfs "mnt/stdio/stdin")))
      → (path : Option String) → OkHolds Added (setup_stdin host rootfs path)
  unfolding setup_stdin
  setup_stdin-All h none = elim (Bool-cases (host.isatty 0 == 0)) [
    | inl e ↦ rw e (h _, tt)
    | inr e ↦ rw e tt
  ]
  setup_stdin-All h (some path) =
      OkHolds->>= Added
        (with_context (format ("open stdin " ∷ path ∷ [])) (attempt (host.open_file path))) _
        λ _ _.
          OkHolds->>= Added
            (with_context (format ("canonicalize(" ∷ path ∷ ")" ∷ []))
              (attempt (host.canonicalize path)))
            _ λ source _. (h source, tt)

  canonical :
      (path source : String)
      → with_context (format ("canonicalize(" ∷ path ∷ ")" ∷ [])) (attempt (host.canonicalize path))
        ≡ ok source
      → host.canonicalize path ≡ done source
  canonical path source e =
      attempt-eq-ok (host.canonicalize path)
        (with_context-eq-ok (format ("canonicalize(" ∷ path ∷ ")" ∷ [])) _ e)

  pub setup_stdout-All :
      (path : Option String)
      → ((source : String)
          → IsSink host rootfs path source
          → P (bind_writable source (join rootfs "mnt/stdio/stdout")))
      → OkHolds Added (setup_stdout host rootfs path)
  unfolding setup_stdout
  setup_stdout-All none h = elim (Bool-cases (host.isatty 1 == 0)) [
    | inl e ↦ rw e (h _ (inr (refl, refl)), tt)
    | inr e ↦ rw e tt
  ]
  setup_stdout-All (some path) h =
      OkHolds->>= Added
        (with_context (format ("create stdout " ∷ path ∷ [])) (attempt (host.create_file path))) _
        λ _ _.
          OkHolds->>= Added
            (with_context (format ("canonicalize(" ∷ path ∷ ")" ∷ []))
              (attempt (host.canonicalize path)))
            _ λ source e. (h source (inl (path, refl, canonical path source e)), tt)

  pub setup_stderr-All :
      (path : Option String)
      → ((source : String)
          → IsSink host rootfs path source
          → P (bind_writable source (join rootfs "mnt/stdio/stderr")))
      → OkHolds Added (setup_stderr host rootfs path)
  unfolding setup_stderr
  setup_stderr-All none h = elim (Bool-cases (host.isatty 2 == 0)) [
    | inl e ↦ rw e (h _ (inr (refl, refl)), tt)
    | inr e ↦ rw e tt
  ]
  setup_stderr-All (some path) h =
      OkHolds->>= Added
        (with_context (format ("create stderr " ∷ path ∷ [])) (attempt (host.open_append path))) _
        λ _ _.
          OkHolds->>= Added
            (with_context (format ("canonicalize(" ∷ path ∷ ")" ∷ []))
              (attempt (host.canonicalize path)))
            _ λ source e. (h source (inl (path, refl, canonical path source e)), tt)
