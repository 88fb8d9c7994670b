-- ===== src/Sys/Capabilities.antt =====
-- `set_all_securebits`, `set_no_new_privs` and `capset` of src/sys.rs.
use Prim.Native.Nat.{bit_or}
use eval_python.Prelude.{
  ℕ, zero, suc, ◌+◌, ◌*◌, ◌/◌, ◌%◌, ◌^◌, Bool, [], ◌∷◌, Outcome, ℤ, ◌==◌, if◌then◌else◌, format,
  display,
}
use eval_python.Prelude.Traced.{Traced, ◌>>=◌, ◌>>◌, pure, call, lift, context}
use eval_python.Sys.Errno.{check_err}

abbrev secbit_noroot : ℕ
secbit_noroot = 1 * 2 ^ 0

abbrev secbit_noroot_locked : ℕ
secbit_noroot_locked = 1 * 2 ^ 1

abbrev secbit_no_setuid_fixup : ℕ
secbit_no_setuid_fixup = 2 * 2 ^ 0

abbrev secbit_no_setuid_fixup_locked : ℕ
secbit_no_setuid_fixup_locked = 3 * 2 ^ 1

abbrev secbit_keep_caps : ℕ
secbit_keep_caps = 4 * 2 ^ 0

abbrev secbit_keep_caps_locked : ℕ
secbit_keep_caps_locked = 5 * 2 ^ 1

abbrev secbit_no_cap_ambient_raise : ℕ
secbit_no_cap_ambient_raise = 6 * 2 ^ 0

abbrev secbit_no_cap_ambient_raise_locked : ℕ
secbit_no_cap_ambient_raise_locked = 7 * 2 ^ 1

-- what `set_all_securebits` hands to the kernel
unfoldable pub all_securebits : ℕ
all_securebits = bit_or secbit_no_cap_ambient_raise (
    bit_or secbit_no_cap_ambient_raise_locked (
      bit_or secbit_keep_caps (
        bit_or secbit_keep_caps_locked (
          bit_or secbit_no_setuid_fixup
            (bit_or secbit_no_setuid_fixup_locked (bit_or secbit_noroot secbit_noroot_locked))))))

pub record Capabilities : Type 0 where
  pub effective : ℕ
  pub permitted : ℕ
  pub inheritable : ℕ
  pub bounding : ℕ
  pub ambient : ℕ

-- `CapUserData`: one word of each of three sets
pub record CapUserData : Type 0 where
  pub effective : ℕ
  pub permitted : ℕ
  pub inheritable : ℕ

abbrev pub low_words : Capabilities → CapUserData
low_words caps = record {
  effective = caps.effective % 2 ^ 32;
  permitted = caps.permitted % 2 ^ 32;
  inheritable = caps.inheritable % 2 ^ 32;
}

abbrev pub high_words : Capabilities → CapUserData
high_words caps = record {
  effective = caps.effective / 2 ^ 32 % 2 ^ 32;
  permitted = caps.permitted / 2 ^ 32 % 2 ^ 32;
  inheritable = caps.inheritable / 2 ^ 32 % 2 ^ 32;
}

-- the system calls of these functions
pub data PrivilegeCall : Type 0 where
  -- prctl(PR_SET_SECUREBITS, bits)
  set_securebits : ℕ → PrivilegeCall
  -- prctl(PR_SET_NO_NEW_PRIVS, 1, 0, 0, 0)
  no_new_privs : PrivilegeCall
  -- prctl(PR_CAP_AMBIENT, PR_CAP_AMBIENT_CLEAR_ALL, 0, 0, 0)
  clear_ambient : PrivilegeCall
  -- prctl(PR_CAPBSET_DROP, capability, 0, 0, 0)
  drop_bounding : ℕ → PrivilegeCall
  -- capset with the low and the high words
  set_capabilities : CapUserData → CapUserData → PrivilegeCall

-- What the kernel answers: the value of each system call, and the number that is read from
-- /proc/sys/kernel/cap_last_cap. `known` is that of `check_err`.
pub record PrivilegeKernel : Type 0 where
  pub known : ℕ → Bool
  pub syscall : PrivilegeCall → ℤ
  pub last_cap : Outcome ℕ

-- `(bounding & (1 << i)) != 0` of a release build, which shifts by the distance modulo 64
unfoldable pub keeps : ℕ → ℕ → Bool
keeps bounding i = bounding / 2 ^ (i % 64) % 2 == 1

module _ (kernel : PrivilegeKernel) where
  unfoldable pub checked : PrivilegeCall → Traced PrivilegeCall (Unit {0})
  checked c = call c (check_err kernel.known (kernel.syscall c)) >>= λ _. pure tt

  unfoldable pub set_all_securebits : Traced PrivilegeCall (Unit {0})
  unfolding checked
  set_all_securebits = context "prctl(PR_SET_SECUREBITS)" (checked (set_securebits all_securebits))

  unfoldable pub set_no_new_privs : Traced PrivilegeCall (Unit {0})
  unfolding checked
  set_no_new_privs = context "prctl(PR_SET_NO_NEW_PRIVS)" (checked no_new_privs)

  -- `for i in first..(first + rounds)`
  unfoldable pub drop_loop : ℕ → ℕ → ℕ → Traced PrivilegeCall (Unit {0})
  drop_loop bounding i zero = pure tt
  drop_loop bounding i (suc rounds) =
      let rest = drop_loop bounding (suc i) rounds in
      if keeps bounding i then rest else (do
        context (format ("prctl(PR_CAPBSET_DROP, " ∷ display i ∷ ", 0, 0, 0)" ∷ []))
            (checked (drop_bounding i))
        rest)

  unfoldable pub clear_if_empty : ℕ → Traced PrivilegeCall (Unit {0})
  clear_if_empty ambient =
      if ambient == 0
      then context "prctl(PR_CAP_AMBIENT, PR_CAP_AMBIENT_CLEAR_ALL, 0, 0, 0)"
          (checked clear_ambient)
      else pure tt

  unfoldable pub capset : Capabilities → Traced PrivilegeCall (Unit {0})
  unfolding checked keeps drop_loop clear_if_empty
  capset caps = do
    last_cap ← lift kernel.last_cap
    clear_if_empty caps.ambient
    drop_loop caps.bounding 0 ((last_cap + 1) % 2 ^ 64)
    context "capset" (checked (set_capabilities (low_words caps) (high_words caps)))
