-- ===== src/Child/Filtered.antt =====
-- The filter of system calls that src/jail/child.rs installs.
use eval_python.Prelude.{
  ℕ, ◌≡◌, refl, ap, Bool, true, false, List, [], ◌∷◌, Outcome, ok, err, panicked, errno, Error,
  String, ◌&&◌, Bool-cases, with_context, with_context-eq-ok, negsuc, ◌⊎◌, inl, inr,
}
use eval_python.Prelude.Traced.{context, >>=-eq-ok}
use eval_python.Options.Types.{JailOptions}
use eval_python.Sys.Errno.{check_err}
use eval_python.Sys.Seccomp.{
  seccomp_set_mode_filter, seccomp_set_mode_filter_with_listener, fprog_len, listener_flags,
}
use eval_python.Child.{
  ChildCall, install_listener, install_filter, send_event, send_fd, ChildKernel, hand_over,
  fall_back, after_listener, setup_seccomp_bpf, is_enosys,
}
use eval_python.Child.Executed.{executes, >>-quiet}

&&-cases : {a b : Bool} → (a && b) ≡ true → (a ≡ true) × (b ≡ true)
&&-cases {a = true} {b = true} h = (refl, refl)
&&-cases {a = true} {b = false} h = cc
&&-cases {a = false} {b} h = cc

abbrev pub listener_context : String
listener_context =
    "seccomp(SECCOMP_SET_MODE_FILTER, SECCOMP_FILTER_FLAG_TSYNC|SECCOMP_FILTER_FLAG_NEW_LISTENER|SECCOMP_FILTER_FLAG_TSYNC_ESRCH)"

module _ (kernel : ChildKernel) (opts : JailOptions) where
  abbrev pub listener : Outcome ℕ
  listener =
      seccomp_set_mode_filter_with_listener kernel.known kernel.seccomp
        opts.seccomp_bpf_filter_notify_contents

  -- The filter with a listener is installed, and its descriptor is handed over.
  abbrev pub IsListened : List ChildCall → Type 0
  IsListened calls =
      (fd : ℕ) × (listener ≡ ok fd)
      × (calls
          ≡ install_listener opts.seccomp_bpf_filter_notify_contents
            ∷ send_event true
            ∷ send_fd fd
            ∷ [])

  -- The kernel has no listeners, the fallback is allowed, and the other filter is installed.
  abbrev pub IsFallenBack : List ChildCall → Type 0
  IsFallenBack calls =
      (e : Error) × (listener ≡ err e)
      × (is_enosys e.cause ≡ true)
      × (opts.allow_sigsys_fallback ≡ true)
      × (seccomp_set_mode_filter kernel.known kernel.seccomp opts.seccomp_bpf_filter_sigsys_contents
          ≡ ok tt)
      × (calls
          ≡ install_listener opts.seccomp_bpf_filter_notify_contents
            ∷ install_filter opts.seccomp_bpf_filter_sigsys_contents
            ∷ send_event false
            ∷ [])

  abbrev pub IsFiltered : List ChildCall → Type 0
  IsFiltered calls = IsListened calls ⊎ IsFallenBack calls

  fall_back-lem :
      (filter : List ℕ)
      → (fall_back kernel filter).1 ≡ ok tt
      → (seccomp_set_mode_filter kernel.known kernel.seccomp filter ≡ ok tt)
        × ((fall_back kernel filter).0 ≡ install_filter filter ∷ send_event false ∷ [])
  unfolding fall_back
  fall_back-lem filter h =
      let r = seccomp_set_mode_filter kernel.known kernel.seccomp filter in
      let (a, e, _, trace) =
        >>=-eq-ok (context "seccomp_set_mode_filter" (install_filter filter ∷ [], r)) _ h in
      (with_context-eq-ok "seccomp_set_mode_filter" r e, trace)

  after_listener-lem :
      (r : Outcome ℕ)
      → listener ≡ r
      → (after_listener kernel opts r).1 ≡ ok tt
      → IsFiltered (
          install_listener opts.seccomp_bpf_filter_notify_contents
          ∷ (after_listener kernel opts r).0)
  unfolding after_listener hand_over
  after_listener-lem (ok fd) e h = inl (fd, e, refl)
  after_listener-lem (err x) e h =
      elim (Bool-cases (opts.allow_sigsys_fallback && is_enosys x.cause)) [
        | inl holds ↦
            let (allowed, none_such) = &&-cases holds in
            let (installed, trace) =
              fall_back-lem opts.seccomp_bpf_filter_sigsys_contents (rw holds at h) in
            rw holds (
              inr (
                x,
                e,
                none_such,
                allowed,
                installed,
                ap (◌∷◌ (install_listener opts.seccomp_bpf_filter_notify_contents)) trace,
              ))
        | inr fails ↦ let h' = rw fails at h in cc
      ]
  after_listener-lem panicked e h = cc

  pub setup_seccomp_bpf-IsFiltered :
      (setup_seccomp_bpf kernel opts).1 ≡ ok tt → IsFiltered (setup_seccomp_bpf kernel opts).0
  unfolding setup_seccomp_bpf
  setup_seccomp_bpf-IsFiltered h = after_listener-lem listener refl h

  fall_back-quiet : (filter : List ℕ) → executes (fall_back kernel filter).0 ≡ false
  unfolding fall_back
  fall_back-quiet filter =
      >>-quiet
        (
          install_filter filter ∷ [],
          with_context "seccomp_set_mode_filter"
              (seccomp_set_mode_filter kernel.known kernel.seccomp filter),
        )
        _ refl refl

  pub after_listener-quiet : (r : Outcome ℕ) → executes (after_listener kernel opts r).0 ≡ false
  unfolding after_listener hand_over
  after_listener-quiet (ok fd) = refl
  after_listener-quiet (err x) =
      elim (Bool-cases (opts.allow_sigsys_fallback && is_enosys x.cause)) [
        | inl holds ↦ rw holds (fall_back-quiet opts.seccomp_bpf_filter_sigsys_contents)
        | inr fails ↦ rw fails
      ]
  after_listener-quiet panicked = refl

module _ (kernel : ChildKernel) where
  listener-refused :
      (opts : JailOptions) (len : ℕ)
      → fprog_len opts.seccomp_bpf_filter_notify_contents ≡ ok len
      → kernel.seccomp listener_flags len opts.seccomp_bpf_filter_notify_contents ≡ negsuc 0
      → kernel.known 1 ≡ true
      → listener kernel opts ≡ err (record { contexts = listener_context ∷ []; cause = errno 1 })
  unfolding seccomp_set_mode_filter_with_listener check_err
  listener-refused opts len short refused eperm = rw (short, refused, eperm)

  -- `libc::syscall` returns -1 for every error. So where the kernel refuses a filter that is not too
  -- long, `setup_seccomp_bpf` makes no other call and ends with `EPERM`, whatever the refusal was:
  -- the fallback is never taken, even where it is allowed. The hypothesis on `known` is that `EPERM`
  -- is one of the numbers that nix has an `Errno` for.
  pub setup_seccomp_bpf-refused :
      (opts : JailOptions) (len : ℕ)
      → fprog_len opts.seccomp_bpf_filter_notify_contents ≡ ok len
      → kernel.seccomp listener_flags len opts.seccomp_bpf_filter_notify_contents ≡ negsuc 0
      → kernel.known 1 ≡ true
      → setup_seccomp_bpf kernel opts ≡ (
        install_listener opts.seccomp_bpf_filter_notify_contents ∷ [],
        err (record {
          contexts = "seccomp_set_mode_filter_with_listener" ∷ listener_context ∷ [];
          cause = errno 1;
        }),
      )
  unfolding setup_seccomp_bpf after_listener
  setup_seccomp_bpf-refused opts len short refused eperm =
      rw (listener-refused opts len short refused eperm)
        (elim (Bool-cases opts.allow_sigsys_fallback) [
          | inl holds ↦ rw holds
          | inr fails ↦ rw fails
        ])
