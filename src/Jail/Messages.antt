-- ===== src/Jail/Messages.antt =====
-- The bytes of a message, and `read_message` of src/jail/mod.rs.
use eval_python.Prelude.{
  ℕ, zero, suc, ◌+◌, ◌*◌, ◌/◌, ◌%◌, ◌^◌, ltb, List, [], ◌∷◌, ◌++◌, Outcome, ok, err, panicked, io,
  with_context, ◌>>=◌, if◌then◌else◌,
}

-- flexbuffers for one type of messages. `decode` is the root of a buffer and the message in it, with
-- the contexts of both.
pub record Codec {ℓ} (T : Type ℓ) : Type ℓ where
  pub serialize : T → Outcome (List ℕ)
  pub decode : List ℕ → Outcome T

-- `to_be_bytes`, of so many bytes
unfoldable pub to_be_bytes : ℕ → ℕ → List ℕ
to_be_bytes zero n = []
to_be_bytes (suc k) n = to_be_bytes k (n / 256) ++ n % 256 ∷ []

unfoldable pub from_be : ℕ → List ℕ → ℕ
from_be acc [] = acc
from_be acc (b ∷ bytes) = from_be (acc * 256 + b) bytes

unfoldable pub from_be_bytes : List ℕ → ℕ
unfolding from_be
from_be_bytes bytes = from_be 0 bytes

-- `read_exact` on what the other end sends before it closes the stream, and the rest of it
unfoldable pub read_exact : ℕ → List ℕ → Outcome (List ℕ × List ℕ)
read_exact zero stream = ok ([], stream)
read_exact (suc n) [] = err (record { contexts = []; cause = io "failed to fill whole buffer" })
read_exact (suc n) (b ∷ stream) = do (bytes, rest) ← read_exact n stream; ok (b ∷ bytes, rest)

-- `vec![0u8; n]` panics where n is larger than the largest `isize`.
unfoldable pub read_body : ℕ → List ℕ → Outcome (List ℕ × List ℕ)
unfolding read_exact
read_body n stream =
    if ltb n (2 ^ 63) then with_context "read message" (read_exact n stream) else panicked

module _ {ℓ} {T : Type ℓ} (codec : Codec T) where
  unfoldable pub read_message : List ℕ → Outcome (T × List ℕ)
  unfolding read_exact from_be_bytes read_body
  read_message stream = do
    (header, after_header) ← with_context "read size" (read_exact 8 stream)
    (bytes, rest) ← read_body (from_be_bytes header) after_header
    message ← codec.decode bytes
    ok (message, rest)
