-- ===== src/Sys/Waited.antt =====
-- What a status of `waitid` of src/sys.rs says.
use eval_python.Prelude.{
  ℕ, zero, suc, ◌+◌, ◌*◌, ◌%◌, ◌^◌, ◌≡◌, refl, sym, ap, subst, ◌∙◌, arith, Bool, true, false,
  Bool-cases, ok, ok-injective, with_context, with_context-eq-ok, ◌>>=◌, >>=-eq-ok, ℤ, pos, negsuc,
  Duration, from_secs, from_micros, bits_64, is_negative_64, ◌⊎◌, inl, inr,
}
use eval_python.Sys.Errno.{check_err}
use eval_python.Sys.Status.{
  WaitStatus, exited, signaled, WaitidStatus, WaitidReply, to_u64, max_rss_bytes, to_signal,
  status_of_code, duration, waitid,
}

pub check_err-eq-ok : (known : ℕ → Bool) (z : ℤ) {n : ℕ} → check_err known z ≡ ok n → z ≡ pos n
unfolding check_err
check_err-eq-ok known (pos m) h = ap pos (ok-injective h)
check_err-eq-ok known (negsuc m) h = ground arith

-- An exit with its code, or a death by a signal that is known, with or without a core.
abbrev pub IsStatusOf : (ℕ → Bool) → WaitidReply → WaitStatus → Type 0
IsStatusOf signals reply status =
    ((reply.si_code ≡ pos 1) × (status ≡ exited reply.si_pid reply.si_status))
    ⊎ (((reply.si_code ≡ pos 2) ⊎ (reply.si_code ≡ pos 3))
        × (signal : ℕ) × (reply.si_status ≡ pos signal)
        × (signals signal ≡ true)
        × (status ≡ signaled reply.si_pid signal))

-- A time in seconds and microseconds, neither of them negative.
abbrev pub IsTime : ℤ → ℤ → Duration → Type 0
IsTime sec usec time =
    (s : ℕ) × (us : ℕ) × (sec ≡ pos s) × (usec ≡ pos us) × (time ≡ from_secs s + from_micros us)

-- The number of bytes of a number of KiB, in 64 bits with a sign.
abbrev pub IsRss : ℤ → ℕ → Type 0
IsRss maxrss bytes = (bytes ≡ bits_64 maxrss * 1024 % 2 ^ 64) × (is_negative_64 bytes ≡ false)

to_u64-eq-ok : (z : ℤ) {n : ℕ} → to_u64 z ≡ ok n → z ≡ pos n
unfolding to_u64
to_u64-eq-ok (pos m) h = ap pos (ok-injective h)
to_u64-eq-ok (negsuc m) h = cc

duration-IsTime :
    (sec usec : ℤ) {time : Duration} → duration sec usec ≡ ok time → IsTime sec usec time
unfolding duration
duration-IsTime sec usec h =
    let (s, sec_ok, rest) = >>=-eq-ok (to_u64 sec) _ h in
    let (us, usec_ok, whole) = >>=-eq-ok (to_u64 usec) _ rest in
    (s, us, to_u64-eq-ok sec sec_ok, to_u64-eq-ok usec usec_ok, sym (ok-injective whole))

max_rss_bytes-IsRss :
    (maxrss : ℤ) {bytes : ℕ} → max_rss_bytes maxrss ≡ ok bytes → IsRss maxrss bytes
unfolding max_rss_bytes
max_rss_bytes-IsRss maxrss h =
    let bits = bits_64 maxrss * 1024 % 2 ^ 64 in
    elim (Bool-cases (is_negative_64 bits)) [
      | inl negative ↦ let h' = rw negative at h in cc
      | inr positive ↦
          let same = ok-injective (rw positive at h) in
          (sym same, ap is_negative_64 (sym same) ∙ positive)
    ]

to_signal-eq-ok :
    (signals : ℕ → Bool) (z : ℤ) {n : ℕ}
    → to_signal signals z ≡ ok n
    → (z ≡ pos n) × (signals n ≡ true)
unfolding to_signal
to_signal-eq-ok signals (pos m) h = elim (Bool-cases (signals m)) [
  | inl holds ↦
      let same = ok-injective (rw holds at h) in (ap pos same, ap signals (sym same) ∙ holds)
  | inr fails ↦ let h' = rw fails at h in cc
]
to_signal-eq-ok signals (negsuc m) h = cc

killed-lem :
    (signals : ℕ → Bool) (pid : ℕ) (z : ℤ) {status : WaitStatus}
    → (to_signal signals z >>= λ signal. ok (signaled pid signal)) ≡ ok status
    → (signal : ℕ) × (z ≡ pos signal) × (signals signal ≡ true) × (status ≡ signaled pid signal)
killed-lem signals pid z h =
    let (signal, valid, whole) = >>=-eq-ok (to_signal signals z) _ h in
    let (same, holds) = to_signal-eq-ok signals z valid in
    (signal, same, holds, sym (ok-injective whole))

status_of_code-IsStatusOf :
    (signals : ℕ → Bool) (reply : WaitidReply) (code : ℤ) {status : WaitStatus}
    → reply.si_code ≡ code
    → status_of_code signals code reply.si_pid reply.si_status ≡ ok status
    → IsStatusOf signals reply status
unfolding status_of_code
status_of_code-IsStatusOf signals reply (pos (suc zero)) e h = inl (e, sym (ok-injective h))
status_of_code-IsStatusOf signals reply (pos (suc (suc zero))) e h =
    let (signal, same, holds, whole) = killed-lem signals reply.si_pid reply.si_status h in
    inr (inl e, signal, same, holds, whole)
status_of_code-IsStatusOf signals reply (pos (suc (suc (suc zero)))) e h =
    let (signal, same, holds, whole) = killed-lem signals reply.si_pid reply.si_status h in
    inr (inr e, signal, same, holds, whole)
status_of_code-IsStatusOf signals reply (pos zero) e h = cc
status_of_code-IsStatusOf signals reply (pos (suc (suc (suc (suc n))))) e h = cc
status_of_code-IsStatusOf signals reply (negsuc n) e h = cc

-- A status of `waitid` says what the kernel has said: that the process ended with an exit code, or
-- that a signal that is known killed it, and no other end of it; its times, none of which is negative,
-- its memory in bytes, and no wall time.
pub waitid-IsReply :
    (known signals : ℕ → Bool) (reply : WaitidReply) (w : WaitidStatus)
    → waitid known signals reply ≡ ok w
    → ((value : ℕ) × (reply.result ≡ pos value))
      × IsStatusOf signals reply w.status
      × IsTime reply.stime_sec reply.stime_usec w.system_time
      × IsTime reply.utime_sec reply.utime_usec w.user_time
      × IsRss reply.maxrss w.max_rss
      × (w.wall_time ≡ 0)
unfolding waitid
waitid-IsReply known signals reply w h =
    let (value, called, h1) =
      >>=-eq-ok (with_context "waitid" (check_err known reply.result)) _ h in
    let (status, classified, h2) =
      >>=-eq-ok (status_of_code signals reply.si_code reply.si_pid reply.si_status) _ h1 in
    let (system_time, system_ok, h3) = >>=-eq-ok (duration reply.stime_sec reply.stime_usec) _ h2 in
    let (user_time, user_ok, h4) = >>=-eq-ok (duration reply.utime_sec reply.utime_usec) _ h3 in
    let (max_rss, rss_ok, whole) = >>=-eq-ok (max_rss_bytes reply.maxrss) _ h4 in
    let same = ok-injective whole in
    (
      (value, check_err-eq-ok known reply.result (with_context-eq-ok "waitid" _ called)),
      subst (IsStatusOf signals reply) (ap (λ v. v.status) same)
          (status_of_code-IsStatusOf signals reply reply.si_code refl classified),
      subst (IsTime reply.stime_sec reply.stime_usec) (ap (λ v. v.system_time) same)
          (duration-IsTime reply.stime_sec reply.stime_usec system_ok),
      subst (IsTime reply.utime_sec reply.utime_usec) (ap (λ v. v.user_time) same)
          (duration-IsTime reply.utime_sec reply.utime_usec user_ok),
      subst (IsRss reply.maxrss) (ap (λ v. v.max_rss) same)
          (max_rss_bytes-IsRss reply.maxrss rss_ok),
      sym (ap (λ v. v.wall_time) same),
    )
