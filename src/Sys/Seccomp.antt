-- ===== src/Sys/Seccomp.antt =====
-- `seccomp_set_mode_filter` and `seccomp_set_mode_filter_with_listener` of src/sys.rs.
use eval_python.Prelude.{
  ℕ, ◌+◌, ◌/◌, ◌^◌, ltb, Bool, List, [], length, Outcome, ok, err, io, with_context, ◌>>=◌, ℤ,
  if◌then◌else◌,
}
use eval_python.Sys.Errno.{check_err}

-- `SECCOMP_FILTER_FLAG_TSYNC | SECCOMP_FILTER_FLAG_TSYNC_ESRCH`
abbrev pub tsync_flags : ℕ
tsync_flags = 2 ^ 0 + 2 ^ 4

-- the same with `SECCOMP_FILTER_FLAG_NEW_LISTENER`
abbrev pub listener_flags : ℕ
listener_flags = 2 ^ 0 + 2 ^ 3 + 2 ^ 4

abbrev pub out_of_range {ℓ} : {A : Type ℓ} → Outcome A
out_of_range =
    err (record { contexts = []; cause = io "out of range integral type conversion attempted" })

-- `SockFprog.len`: a filter has eight bytes for each instruction
unfoldable pub fprog_len : List ℕ → Outcome ℕ
fprog_len filter = let n = length filter / 8 in if ltb n (2 ^ 16) then ok n else out_of_range

-- `syscall` is the value of seccomp(SECCOMP_SET_MODE_FILTER, flags, { len, filter }).
module _ (known : ℕ → Bool) (syscall : ℕ → ℕ → List ℕ → ℤ) where
  unfoldable pub seccomp_set_mode_filter : List ℕ → Outcome (Unit {0})
  unfolding fprog_len
  seccomp_set_mode_filter filter = do
    len ← fprog_len filter
    value ←
        with_context
          "seccomp(SECCOMP_SET_MODE_FILTER, SECCOMP_FILTER_FLAG_TSYNC|SECCOMP_FILTER_FLAG_TSYNC_ESRCH)"
          (check_err known (syscall tsync_flags len filter))
    ok tt

  unfoldable pub seccomp_set_mode_filter_with_listener : List ℕ → Outcome ℕ
  unfolding fprog_len
  seccomp_set_mode_filter_with_listener filter = do
    len ← fprog_len filter
    fd ←
        with_context
          "seccomp(SECCOMP_SET_MODE_FILTER, SECCOMP_FILTER_FLAG_TSYNC|SECCOMP_FILTER_FLAG_NEW_LISTENER|SECCOMP_FILTER_FLAG_TSYNC_ESRCH)"
          (check_err known (syscall listener_flags len filter))
    if ltb fd (2 ^ 31) then ok fd else out_of_range
