-- ===== src/Jail/Write.antt =====
-- `write_message` of src/jail/mod.rs.
use eval_python.Prelude.{ℕ, List, length, Io, attempt}
use eval_python.Prelude.Traced.{Traced, ◌>>=◌, ◌>>◌, call, lift, context}
use eval_python.Jail.Messages.{Codec, to_be_bytes}

module _ {ℓ} {T : Type ℓ} (codec : Codec T) where
  -- `sent` is what the stream answers to each `write_all`.
  unfoldable pub write_message : (List ℕ → Io (Unit {0})) → T → Traced (List ℕ) (Unit {0})
  write_message sent message = context "serialize" (lift (codec.serialize message)) >>= λ bytes.
      let size = to_be_bytes 8 (length bytes) in
      context "write size" (call size (attempt (sent size)))
      >> context "write message" (call bytes (attempt (sent bytes)))
