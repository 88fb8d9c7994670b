-- ===== src/Sys/Errno.antt =====
-- `check_err` of src/sys.rs.
use eval_python.Prelude.{
  ℕ, suc, ◌^◌, ltb, Bool, ◌&&◌, [], ◌∷◌, Outcome, ok, err, bail, errno, io, ℤ, pos, negsuc, format,
  display, if◌then◌else◌,
}

-- `known` tells the numbers that nix has an `Errno` for. A number below -2^31 is no `i32`; the
-- negation of -2^31 wraps to itself, which is no `Errno`.
unfoldable pub check_err : (ℕ → Bool) → ℤ → Outcome ℕ
check_err known (pos n) = ok n
check_err known (negsuc n) =
    if ltb (2 ^ 31) (suc n)
    then err
        (record { contexts = []; cause = io "out of range integral type conversion attempted" })
    else if ltb (suc n) (2 ^ 31) && known (suc n)
    then err (record { contexts = []; cause = errno (suc n) })
    else bail (format ("unknown errno: -" ∷ display (suc n) ∷ []))
