-- ===== src/Sys/Serde.antt =====
-- `pid_serde` and `signal_serde` of src/sys.rs.
use eval_python.Prelude.{
  ℕ, ◌≡◌, Bool, true, [], ◌∷◌, Outcome, ok, err, panicked, bail, ◌>>=◌, ℤ, pos, format, display_int,
}
use eval_python.Sys.Status.{to_signal}

-- serde for `Repr(i32)`, in one format: what it writes, and what it reads.
pub record ReprSerde {ℓ} (S : Type ℓ) : Type ℓ where
  pub write : ℤ → Outcome S
  pub read : S → Outcome ℤ

-- the text of the error is without the `{:#}` of its cause
unfoldable pub or_custom : ℤ → Outcome ℕ → Outcome ℕ
or_custom repr (ok signal) = ok signal
or_custom repr (err e) = bail (format ("value out of range: " ∷ display_int repr ∷ []))
or_custom repr panicked = panicked

unfoldable pub signal_of : (ℕ → Bool) → ℤ → Outcome ℕ
unfolding or_custom
signal_of signals repr = or_custom repr (to_signal signals repr)

signal_of-pos :
    (signals : ℕ → Bool) (signal : ℕ)
    → signals signal ≡ true
    → signal_of signals (pos signal) ≡ ok signal
unfolding signal_of to_signal
signal_of-pos signals signal known = rw known

module _ {ℓ} {S : Type ℓ} (serde : ReprSerde S) where
  unfoldable pub serialize_pid : ℤ → Outcome S
  serialize_pid pid = serde.write pid

  unfoldable pub deserialize_pid : S → Outcome ℤ
  deserialize_pid s = serde.read s >>= λ repr. ok repr

  unfoldable pub serialize_signal : ℕ → Outcome S
  serialize_signal signal = serde.write (pos signal)

  -- `signals` tells the numbers that nix has a `Signal` for
  unfoldable pub deserialize_signal : (ℕ → Bool) → S → Outcome ℕ
  unfolding signal_of
  deserialize_signal signals s = serde.read s >>= signal_of signals

  -- A signal that nix knows is read back as it was written, where the format keeps its number.
  pub deserialize_signal-serialize_signal :
      (signals : ℕ → Bool) (signal : ℕ) (s : S)
      → signals signal ≡ true
      → serde.write (pos signal) ≡ ok s
      → serde.read s ≡ ok (pos signal)
      → (serialize_signal signal >>= deserialize_signal signals) ≡ ok signal
  unfolding serialize_signal deserialize_signal
  deserialize_signal-serialize_signal signals signal s known written kept =
      rw (written, kept) (signal_of-pos signals signal known)
