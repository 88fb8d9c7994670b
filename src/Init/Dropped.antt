-- ===== src/Init/Dropped.antt =====
-- What a successful `drop_privileges` has asked of the kernel.
use native.Mathlib.Nat.{zero-div, mod-eq_of_lt}
use eval_python.Prelude.{
  ℕ, zero, suc, ◌+◌, ◌%◌, ◌^◌, ◌<◌, false, List, [], ◌∷◌, ◌++◌, ◌≡◌, refl, sym, All, ok, pos,
  String, with_context-eq-ok, subst, format, display,
}
use eval_python.Prelude.Traced.{Traced, context, >>=-eq-ok, Makes, >>-Makes, context-Makes}
use eval_python.Sys.Waited.{check_err-eq-ok}
use eval_python.Sys.Errno.{check_err}
use eval_python.Sys.Capabilities.{
  CapUserData, PrivilegeCall, set_securebits, clear_ambient, drop_bounding, set_capabilities,
  PrivilegeKernel, checked, keeps, drop_loop, set_all_securebits, capset, all_securebits,
  clear_if_empty,
}
use eval_python.Init.Privileges.{no_capabilities, drop_privileges}

abbrev pub no_words : CapUserData
no_words = record { effective = 0; permitted = 0; inheritable = 0 }

-- one call for each capability from the first on
pub drops : ℕ → ℕ → List PrivilegeCall
drops i zero = []
drops i (suc rounds) = drop_bounding i ∷ drops (suc i) rounds

keeps-zero : (i : ℕ) → keeps 0 i ≡ false
unfolding keeps
keeps-zero i = rw (zero-div (2 ^ (i % 64)))

module _ (kernel : PrivilegeKernel) where
  -- the kernel carried the call out
  abbrev pub IsGranted : PrivilegeCall → Type 0
  IsGranted c = (n : ℕ) × (kernel.syscall c ≡ pos n)

  abbrev Made : List PrivilegeCall → Traced PrivilegeCall (Unit {0}) → Type 0
  Made = Makes IsGranted

  checked-Made :
      (text : String) (c : PrivilegeCall)
      → (context text (checked kernel c)).1 ≡ ok tt
      → Made (c ∷ []) (context text (checked kernel c))
  unfolding checked
  checked-Made text c h =
      let (n, e, _, trace) =
        >>=-eq-ok (c ∷ [], check_err kernel.known (kernel.syscall c)) _
          (with_context-eq-ok text _ h) in
      (trace, ((n, check_err-eq-ok kernel.known (kernel.syscall c) e), tt))

  drop_loop-Made :
      (i rounds : ℕ)
      → (drop_loop kernel 0 i rounds).1 ≡ ok tt
      → Made (drops i rounds) (drop_loop kernel 0 i rounds)
  unfolding drop_loop drops
  drop_loop-Made i zero h = (refl, tt)
  drop_loop-Made i (suc rounds) h =
      let text = format ("prctl(PR_CAPBSET_DROP, " ∷ display i ∷ ", 0, 0, 0)" ∷ []) in
      rw (keeps-zero i) (
        >>-Makes IsGranted (context text (checked kernel (drop_bounding i)))
          (drop_loop kernel 0 (suc i) rounds) (drop_bounding i ∷ []) (drops (suc i) rounds)
          (checked-Made text (drop_bounding i)) (drop_loop-Made (suc i) rounds)
          (rw (keeps-zero i) at h))

  capset-Made :
      (last : ℕ)
      → kernel.last_cap ≡ ok last
      → (capset kernel no_capabilities).1 ≡ ok tt
      → Made
          (clear_ambient
            ∷ (drops 0 ((last + 1) % 2 ^ 64) ++ set_capabilities no_words no_words ∷ []))
          (capset kernel no_capabilities)
  unfolding capset clear_if_empty
  capset-Made last e h = rw e (
      >>-Makes IsGranted
        (context "prctl(PR_CAP_AMBIENT, PR_CAP_AMBIENT_CLEAR_ALL, 0, 0, 0)"
          (checked kernel clear_ambient))
        _ (clear_ambient ∷ []) _ (checked-Made _ clear_ambient)
        (>>-Makes IsGranted (drop_loop kernel 0 0 ((last + 1) % 2 ^ 64)) _ _ _
          (drop_loop-Made 0 ((last + 1) % 2 ^ 64)) (checked-Made _ _))
        (rw e at h))

  set_all_securebits-Made :
      (context "set_all_securebits" (set_all_securebits kernel)).1 ≡ ok tt
      → Made
          (set_securebits all_securebits ∷ [])
          (context "set_all_securebits" (set_all_securebits kernel))
  unfolding set_all_securebits
  set_all_securebits-Made =
      context-Makes IsGranted "set_all_securebits" (set_all_securebits kernel) _
        (checked-Made "prctl(PR_SET_SECUREBITS)" (set_securebits all_securebits))

  -- After a successful `drop_privileges`, the calls made are: the secure bits, the ambient set cleared,
  -- every capability from 0 to the last one dropped from the bounding set in order, and empty
  -- effective, permitted and inheritable sets, each carried out by the kernel; the number of the last
  -- capability is that of /proc, below the largest 64-bit number.
  pub drop_privileges-Made :
      (last : ℕ)
      → kernel.last_cap ≡ ok last
      → last + 1 < 2 ^ 64
      → (drop_privileges kernel).1 ≡ ok tt
      → ((drop_privileges kernel).0
          ≡ set_securebits all_securebits
            ∷ clear_ambient
            ∷ (drops 0 (last + 1) ++ set_capabilities no_words no_words ∷ []))
        × All IsGranted (drop_privileges kernel).0
  unfolding drop_privileges
  drop_privileges-Made last e small h =
      let (same, granted) =
        >>-Makes IsGranted (context "set_all_securebits" (set_all_securebits kernel))
          (context "capset" (capset kernel no_capabilities)) (set_securebits all_securebits ∷ []) _
          set_all_securebits-Made
          (context-Makes IsGranted "capset" (capset kernel no_capabilities) _ (capset-Made last e))
          h in
      let exact =
        subst
          (λ n.
            (drop_privileges kernel).0
            ≡ set_securebits all_securebits
              ∷ clear_ambient
              ∷ (drops 0 n ++ set_capabilities no_words no_words ∷ []))
          (mod-eq_of_lt small) same in
      (exact, subst (All IsGranted) (sym same) granted)
