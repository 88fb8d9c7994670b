-- ===== src/Jail/Returned.antt =====
-- What `Jail::wait` of src/jail/mod.rs returns, and when.
use eval_python.Prelude.{
  ◌-◌, ℕ, ◌<◌, ◌^◌, ◌≡◌, ◌≢◌, refl, sym, ap, ◌∙◌, Bool, true, false, none, some, List, [], ◌∷◌,
  ◌++◌, append-nil, All, length, Outcome, ok, err, panicked, Io, ◌⊎◌, inl, inr,
}
use eval_python.Sys.Status.{WaitidStatus, signaled}
use eval_python.Jail.Messages.{Codec, read_message}
use eval_python.Jail.Write.{write_message}
use eval_python.Jail.Frames.{frame, concat, read_message-write_message, read_message-truncated}
use eval_python.Jail.Wait.{
  JailCall, kill, WaitpidReply, reaped, interrupted, refused, Jail, JailKernel, waitpid_loop,
  killed_status, message_or_kill, after_waitpid, after_message, wait,
}

-- waitpid does not say that the child is reaped.
abbrev pub IsOther : WaitpidReply → Type 0
IsOther reply = (reply ≡ interrupted) ⊎ (reply ≡ refused)

loop-reaped :
    (before after : List WaitpidReply) → (waitpid_loop (before ++ reaped ∷ after)).1 ≡ true
unfolding waitpid_loop
loop-reaped [] after = refl
loop-reaped (reaped ∷ before) after = refl
loop-reaped (interrupted ∷ before) after = loop-reaped before after
loop-reaped (refused ∷ before) after = loop-reaped before after

loop-other : (replies : List WaitpidReply) → All IsOther replies → (waitpid_loop replies).1 ≡ false
unfolding waitpid_loop
loop-other [] others = refl
loop-other (reaped ∷ replies) (inl e, others) = cc
loop-other (reaped ∷ replies) (inr e, others) = cc
loop-other (interrupted ∷ replies) (other, others) = loop-other replies others
loop-other (refused ∷ replies) (other, others) = loop-other replies others

module _ (codec : Codec WaitidStatus) (kernel : JailKernel) (jail : Jail) where
  after_waitpid-ended :
      (status : WaitidStatus) (w : List JailCall × Bool)
      → w.1 ≡ true
      → (after_waitpid codec kernel jail status w).1 ≡ some (ok status)
  unfolding after_waitpid
  after_waitpid-ended status (calls, true) e = refl
  after_waitpid-ended status (calls, false) e = cc

  after_waitpid-unended :
      (status : WaitidStatus) (w : List JailCall × Bool)
      → w.1 ≡ false
      → (after_waitpid codec kernel jail status w).1 ≡ none
  unfolding after_waitpid
  after_waitpid-unended status (calls, true) e = cc
  after_waitpid-unended status (calls, false) e = refl

  -- The status that the init process has written in full is the one that `wait` returns, once waitpid
  -- reaps the child, whatever it replies before and whatever happens to the meta file. The hypothesis
  -- is that flexbuffers decodes what it has encoded.
  pub wait-write_message :
      (sent : List ℕ → Io (Unit {0})) (status : WaitidStatus) (bytes : List ℕ)
      (before after : List WaitpidReply)
      → codec.serialize status ≡ ok bytes
      → codec.decode bytes ≡ ok status
      → length bytes < 2 ^ 63
      → (write_message codec sent status).1 ≡ ok tt
      → kernel.stream ≡ concat (write_message codec sent status).0
      → kernel.replies ≡ before ++ reaped ∷ after
      → (wait codec kernel jail).1 ≡ some (ok status)
  unfolding wait after_message message_or_kill
  wait-write_message sent status bytes before after encoded decoded small written received replies =
      let read : read_message codec kernel.stream ≡ ok (status, []) =
        ap (read_message codec)
          (received ∙ sym (append-nil (concat (write_message codec sent status).0)))
        ∙ read_message-write_message codec sent status bytes [] encoded decoded small written in
      rw read (
        after_waitpid-ended status (waitpid_loop kernel.replies)
          (ap (λ r. (waitpid_loop r).1) replies ∙ loop-reaped before after))

  -- If the init process ends before it has written its message in full, `wait` kills it with `SIGKILL`,
  -- as its first call, and returns `SIGKILL` with no times but the wall time since the start of the
  -- child, once waitpid reaps the child.
  pub wait-truncated :
      (bytes ys : List ℕ) (b : ℕ) (before after : List WaitpidReply)
      → length bytes < 2 ^ 63
      → kernel.stream ++ b ∷ ys ≡ frame bytes
      → kernel.replies ≡ before ++ reaped ∷ after
      → (more : List JailCall) × ((wait codec kernel jail).0 ≡ kill 9 ∷ more)
        × ((wait codec kernel jail).1
            ≡ some (
                ok (record {
                  status = signaled jail.child 9;
                  user_time = 0;
                  system_time = 0;
                  wall_time = kernel.now - jail.child_start;
                  max_rss = 0;
                })))
  unfolding wait after_message message_or_kill killed_status
  wait-truncated bytes ys b before after small cut replies =
      let (text, e) = read_message-truncated codec bytes kernel.stream ys b small cut in
      (
        (after_waitpid codec kernel jail (killed_status codec kernel jail)
            (waitpid_loop kernel.replies)).0,
        rw e refl,
        rw e (
            after_waitpid-ended (killed_status codec kernel jail) (waitpid_loop kernel.replies)
              (ap (λ r. (waitpid_loop r).1) replies ∙ loop-reaped before after)),
      )

  stuck_lem :
      (r : Outcome (WaitidStatus × List ℕ))
      → All IsOther kernel.replies
      → r ≢ panicked
      → (after_message codec kernel jail (message_or_kill codec kernel jail r)).1 ≡ none
  unfolding after_message message_or_kill
  stuck_lem (ok (status, rest)) others sound =
      after_waitpid-unended status (waitpid_loop kernel.replies) (loop-other kernel.replies others)
  stuck_lem (err e) others sound =
      after_waitpid-unended (killed_status codec kernel jail) (waitpid_loop kernel.replies)
        (loop-other kernel.replies others)
  stuck_lem panicked others sound = elim (sound refl) [ ]

  -- As long as waitpid is interrupted or replies with another error, `wait` goes on: where the error
  -- comes back each time, as it does for a child that is not there, `wait` never returns.
  pub wait-stuck :
      All IsOther kernel.replies
      → read_message codec kernel.stream ≢ panicked
      → (wait codec kernel jail).1 ≡ none
  unfolding wait
  wait-stuck others sound = stuck_lem (read_message codec kernel.stream) others sound
