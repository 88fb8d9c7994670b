-- ===== src/Jail/Wait.antt =====
-- `Jail::wait` and `wait_write_meta_file` of src/jail/mod.rs.
use eval_python.Prelude.{
  ℕ, ◌-◌, Bool, true, false, String, Option, none, some, List, [], ◌∷◌, ◌++◌, map, as_micros,
  Outcome, ok, err, panicked, Io, attempt, pos, negsuc, format, display, display_int,
}
use eval_python.Prelude.Traced.{Traced, ◌>>=◌, ◌>>◌, call, lift, context}
use eval_python.Sys.Seccomp.{out_of_range}
use eval_python.Sys.Status.{WaitStatus, exited, syscalled, signaled, WaitidStatus}
use eval_python.Jail.Messages.{Codec, read_message}

-- `remove_cgroup` is the drop of a cgroup, by its path.
pub data JailCall : Type 0 where
  kill : ℕ → JailCall
  waitpid : JailCall
  remove_cgroup : String → JailCall
  create_file : String → JailCall
  write_text : String → JailCall

pub data WaitpidReply : Type 0 where
  reaped interrupted refused : WaitpidReply

pub record Jail : Type 0 where
  pub child : ℕ
  pub child_start : ℕ
  pub meta : Option String
  pub cgroups : List String

-- The bytes that the init process sends, the replies of waitpid in order, the clock when no message
-- is read, and the answers for the meta file. The names of signals and of system calls are those of
-- nix and of syscalls, `debug` is `{:?}` of a path.
pub record JailKernel : Type 0 where
  pub stream : List ℕ
  pub replies : List WaitpidReply
  pub now : ℕ
  pub created : Io (Unit {0})
  pub written : String → Io (Unit {0})
  pub signal_name : ℕ → String
  pub syscall_name : ℕ → Option String
  pub debug : String → String

abbrev pub sigkill : ℕ
sigkill = 9

abbrev pub name_or_number : ℕ → Option String → String
name_or_number n none = format ("#" ∷ display n ∷ [])
name_or_number n (some name) = name

-- The calls of the loop, and whether it ends with these replies.
unfoldable pub waitpid_loop : List WaitpidReply → List JailCall × Bool
waitpid_loop [] = ([], false)
waitpid_loop (reaped ∷ replies) = (waitpid ∷ [], true)
waitpid_loop (interrupted ∷ replies) =
    let (calls, ended) = waitpid_loop replies in (waitpid ∷ calls, ended)
waitpid_loop (refused ∷ replies) =
    let (calls, ended) = waitpid_loop replies in (waitpid ∷ calls, ended)

module _ (codec : Codec WaitidStatus) (kernel : JailKernel) where
  unfoldable pub status_line : WaitStatus → Outcome String
  status_line (exited pid code) = ok (format ("status:" ∷ display_int code ∷ "\n" ∷ []))
  status_line (signaled pid signal) =
      ok (format ("signal:" ∷ kernel.signal_name signal ∷ "\n" ∷ []))
  status_line (syscalled pid (pos n)) =
      ok (format ("signal:SIGSYS\nsyscall:" ∷ name_or_number n (kernel.syscall_name n) ∷ "\n" ∷ []))
  status_line (syscalled pid (negsuc n)) = out_of_range

  unfoldable pub write_line : String → String → Traced JailCall (Unit {0})
  write_line meta text =
      context (format ("write " ∷ kernel.debug meta ∷ []))
        (call (write_text text) (attempt (kernel.written text)))

  unfoldable pub wait_write_meta_file : String → WaitidStatus → Traced JailCall (Unit {0})
  unfolding status_line write_line
  wait_write_meta_file meta status = do
    context (format ("create " ∷ kernel.debug meta ∷ []))
        (call (create_file meta) (attempt kernel.created))
    write_line meta (format ("time:" ∷ display (as_micros status.user_time) ∷ "\n" ∷ []))
    write_line meta (format ("time-sys:" ∷ display (as_micros status.system_time) ∷ "\n" ∷ []))
    write_line meta (format ("time-wall:" ∷ display (as_micros status.wall_time) ∷ "\n" ∷ []))
    write_line meta (format ("mem:" ∷ display status.max_rss ∷ "\n" ∷ []))
    line ← lift (status_line status.status)
    write_line meta line

  unfoldable pub killed_status : Jail → WaitidStatus
  killed_status jail = record {
    status = signaled jail.child sigkill;
    user_time = 0;
    system_time = 0;
    wall_time = kernel.now - jail.child_start;
    max_rss = 0;
  }

  -- the `match` on the message
  unfoldable pub message_or_kill :
      Jail → Outcome (WaitidStatus × List ℕ) → List JailCall × Outcome WaitidStatus
  unfolding killed_status
  message_or_kill jail (ok (status, rest)) = ([], ok status)
  message_or_kill jail (err e) = (kill sigkill ∷ [], ok (killed_status jail))
  message_or_kill jail panicked = ([], panicked)

  -- An error of the meta file is logged.
  unfoldable pub meta_calls : Option String → WaitidStatus → List JailCall
  unfolding wait_write_meta_file
  meta_calls none status = []
  meta_calls (some meta) status = (wait_write_meta_file meta status).0

  unfoldable pub after_waitpid :
      Jail → WaitidStatus → List JailCall × Bool → List JailCall × Option (Outcome WaitidStatus)
  unfolding meta_calls
  after_waitpid jail status (calls, false) = (calls, none)
  after_waitpid jail status (calls, true) =
      (calls ++ map remove_cgroup jail.cgroups ++ meta_calls jail.meta status, some (ok status))

  unfoldable pub after_message :
      Jail → List JailCall × Outcome WaitidStatus → List JailCall × Option (Outcome WaitidStatus)
  unfolding after_waitpid waitpid_loop
  after_message jail (kills, ok status) =
      let (calls, r) = after_waitpid jail status (waitpid_loop kernel.replies) in
      (kills ++ calls, r)
  after_message jail (kills, err e) = (kills, some (err e))
  after_message jail (kills, panicked) = (kills, some panicked)

  -- `none` where the replies are over before the loop ends
  unfoldable pub wait : Jail → List JailCall × Option (Outcome WaitidStatus)
  unfolding after_message message_or_kill
  wait jail = after_message jail (message_or_kill jail (read_message codec kernel.stream))
