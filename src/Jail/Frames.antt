-- ===== src/Jail/Frames.antt =====
-- Messages that src/jail/mod.rs writes, read back.
use native.Mathlib.Nat.{pow-suc}
use mathlib.Core.List.{head-eq_of_cons-eq, tail-eq_of_cons-eq}
use eval_python.Prelude.{
  ℕ, zero, suc, ◌+◌, ◌*◌, ◌/◌, ◌%◌, ◌^◌, ◌<◌, ◌≤◌, ◌≡◌, refl, ap, ◌∙◌, subst, arith, ltb, true,
  Bool-cases, inl, inr, List, [], ◌∷◌, ◌++◌, append_assoc, append-nil, length, length-append,
  String, ok, err, Io, attempt, io,
}
use eval_python.Prelude.Traced.{context, call, >>=-eq-ok}
use eval_python.Jail.Messages.{
  Codec, to_be_bytes, from_be, from_be_bytes, read_exact, read_body, read_message,
}
use eval_python.Jail.Write.{write_message}

from_be-append :
    (acc : ℕ) (bytes : List ℕ) (b : ℕ) → from_be acc (bytes ++ b ∷ []) ≡ from_be acc bytes * 256 + b
unfolding from_be
from_be-append acc [] b = refl
from_be-append acc (first ∷ bytes) b = from_be-append (acc * 256 + first) bytes b

length-to_be_bytes : (k n : ℕ) → length (to_be_bytes k n) ≡ k
unfolding to_be_bytes
length-to_be_bytes zero n = refl
length-to_be_bytes (suc k) n =
    omega (
      arith,
      length-append (to_be_bytes k (n / 256)) (n % 256 ∷ []),
      length-to_be_bytes k (n / 256),
    )

from_be-to_be_bytes : (k n : ℕ) → n < 256 ^ k → from_be 0 (to_be_bytes k n) ≡ n
unfolding to_be_bytes from_be
from_be-to_be_bytes zero n small = omega arith
from_be-to_be_bytes (suc k) n small =
    let shorter : n / 256 < 256 ^ k = omega (arith, pow-suc 256 k) in
    omega (
      arith,
      from_be-append 0 (to_be_bytes k (n / 256)) (n % 256),
      from_be-to_be_bytes k (n / 256) shorter,
    )

read_exact-append :
    (bytes rest : List ℕ) → read_exact (length bytes) (bytes ++ rest) ≡ ok (bytes, rest)
unfolding read_exact
read_exact-append [] rest = refl
read_exact-append (b ∷ bytes) rest = rw (read_exact-append bytes rest)

read_exact-short :
    (n : ℕ) (stream : List ℕ)
    → length stream < n
    → read_exact n stream ≡ err (record { contexts = []; cause = io "failed to fill whole buffer" })
unfolding read_exact
read_exact-short zero stream short = ground arith
read_exact-short (suc n) [] short = refl
read_exact-short (suc n) (b ∷ stream) short = rw (read_exact-short n stream (omega arith))

read_header :
    (n : ℕ) (rest : List ℕ) → read_exact 8 (to_be_bytes 8 n ++ rest) ≡ ok (to_be_bytes 8 n, rest)
read_header n rest =
    subst (λ k. read_exact k (to_be_bytes 8 n ++ rest) ≡ ok (to_be_bytes 8 n, rest))
      (length-to_be_bytes 8 n) (read_exact-append (to_be_bytes 8 n) rest)

-- the bytes of a message on the stream
abbrev pub frame : List ℕ → List ℕ
frame bytes = to_be_bytes 8 (length bytes) ++ bytes

abbrev pub concat : List (List ℕ) → List ℕ
concat [] = []
concat (chunk ∷ chunks) = chunk ++ concat chunks

module _ {ℓ} {T : Type ℓ} (codec : Codec T) where
  read_message-frame :
      (message : T) (bytes rest : List ℕ)
      → codec.decode bytes ≡ ok message
      → length bytes < 2 ^ 63
      → read_message codec (to_be_bytes 8 (length bytes) ++ (bytes ++ rest)) ≡ ok (message, rest)
  unfolding read_message from_be_bytes read_body
  read_message-frame message bytes rest decoded small =
      let size : from_be 0 (to_be_bytes 8 (length bytes)) ≡ length bytes =
        from_be-to_be_bytes 8 (length bytes) (omega arith) in
      let fits : ltb (length bytes) (2 ^ 63) ≡ true = ground arith in
      rw (
        read_header (length bytes) (bytes ++ rest),
        size,
        fits,
        read_exact-append bytes rest,
        decoded,
      )

  -- A message that is written in full is read back, whatever follows it on the stream, and what
  -- follows it is left. The hypothesis is that flexbuffers decodes what it has encoded; the encoding
  -- is shorter than the largest allocation.
  pub read_message-write_message :
      (sent : List ℕ → Io (Unit {0})) (message : T) (bytes rest : List ℕ)
      → codec.serialize message ≡ ok bytes
      → codec.decode bytes ≡ ok message
      → length bytes < 2 ^ 63
      → (write_message codec sent message).1 ≡ ok tt
      → read_message codec (concat (write_message codec sent message).0 ++ rest)
        ≡ ok (message, rest)
  unfolding write_message
  read_message-write_message sent message bytes rest encoded decoded small h =
      let size = to_be_bytes 8 (length bytes) in
      let (_, _, _, trace) =
        >>=-eq-ok (context "write size" (call size (attempt (sent size)))) _ (rw encoded at h) in
      let written : (write_message codec sent message).0 ≡ size ∷ bytes ∷ [] = rw encoded trace in
      ap (λ chunks. read_message codec (concat chunks ++ rest)) written
      ∙ ap (λ body. read_message codec ((size ++ body) ++ rest)) (append-nil bytes)
      ∙ ap (read_message codec) (append_assoc size bytes rest)
      ∙ read_message-frame message bytes rest decoded small

-- A list that is at least as long as the first part of an append begins with it.
split_lem :
    {A : Type 0} (first second xs ys : List A)
    → length first ≤ length xs
    → xs ++ ys ≡ first ++ second
    → (more : List A) × (xs ≡ first ++ more) × (more ++ ys ≡ second)
split_lem [] second xs ys long same = (xs, refl, same)
split_lem (x ∷ first) second [] ys long same = ground arith
split_lem (x ∷ first) second (y ∷ xs) ys long same =
    let (more, begins, ends) =
      split_lem first second xs ys (omega arith) (tail-eq_of_cons-eq same) in
    (more, ap (◌∷◌ y) begins ∙ ap (λ c. c ∷ (first ++ more)) (head-eq_of_cons-eq same), ends)

module _ {ℓ} {T : Type ℓ} (codec : Codec T) where
  -- A stream that is closed before the end of a message gives an error: never a message, and no panic.
  pub read_message-truncated :
      (bytes xs ys : List ℕ) (b : ℕ)
      → length bytes < 2 ^ 63
      → xs ++ b ∷ ys ≡ frame bytes
      → (text : String) × (read_message codec xs
          ≡ err (record { contexts = text ∷ []; cause = io "failed to fill whole buffer" }))
  unfolding read_message from_be_bytes read_body
  read_message-truncated bytes xs ys b small same = elim (Bool-cases (ltb (length xs) 8)) [
    | inl short ↦ ("read size", rw (read_exact-short 8 xs (ground arith)))
    | inr long ↦
        let enough : 8 ≤ length xs = ground arith in
        let (more, begins, ends) =
          split_lem (to_be_bytes 8 (length bytes)) bytes xs (b ∷ ys)
            (omega (arith, length-to_be_bytes 8 (length bytes), enough)) same in
        let size : from_be 0 (to_be_bytes 8 (length bytes)) ≡ length bytes =
          from_be-to_be_bytes 8 (length bytes) (omega arith) in
        let fits : ltb (length bytes) (2 ^ 63) ≡ true = ground arith in
        let shorter : length more < length bytes =
          omega (arith, length-append more (b ∷ ys), ap length ends) in
        (
          "read message",
          rw (
            begins,
            read_header (length bytes) more,
            size,
            fits,
            read_exact-short (length bytes) more shorter,
          ),
        )
  ]
