-- ===== src/Tests/Jail.antt =====
-- The status of a child, sent and received, and a jail whose child is not there.
use eval_python.Prelude.{
  ℕ, ◌≡◌, refl, arith, ok, panicked, done, none, some, List, [], ◌∷◌, ◌++◌, inr, err, io, String,
  pos, ◌≢◌,
}
use eval_python.Sys.Status.{WaitidStatus, exited}
use eval_python.Jail.Messages.{Codec, to_be_bytes, read_message}
use eval_python.Jail.Write.{write_message}
use eval_python.Jail.Frames.{frame, concat, read_message-write_message, read_message-truncated}
use eval_python.Jail.Wait.{JailCall, kill, JailKernel, Jail, interrupted, refused, reaped, wait}
use eval_python.Prelude.{display}
use eval_python.Prelude.Fields.{holds}
use eval_python.Jail.Meta.{by_syscall, text_of, read_meta}
use eval_python.Jail.Recorded.{wait_write_meta_file-read}
use eval_python.Jail.Wait.{wait_write_meta_file}
use eval_python.Sys.Status.{syscalled, signaled}
use eval_python.Jail.Returned.{wait-write_message, wait-truncated, wait-stuck}

abbrev pub exit_status : WaitidStatus
exit_status = record {
  status = exited 2 (pos 0);
  user_time = 5;
  system_time = 3;
  wall_time = 9;
  max_rss = 1024;
}

-- one message, in three bytes
abbrev pub one_codec : Codec WaitidStatus
one_codec = record { serialize = λ status. ok (1 ∷ 2 ∷ 3 ∷ []); decode = λ bytes. ok exit_status }

abbrev pub bytes : List ℕ
bytes = 1 ∷ 2 ∷ 3 ∷ []

abbrev pub stream : List ℕ
stream = 0 ∷ 0 ∷ 0 ∷ 0 ∷ 0 ∷ 0 ∷ 0 ∷ 3 ∷ 1 ∷ 2 ∷ 3 ∷ []

abbrev pub kernel : JailKernel
kernel = record {
  stream = stream;
  replies = interrupted ∷ reaped ∷ [];
  now = 20;
  created = done tt;
  written = λ text. done tt;
  signal_name = λ signal. "SIGKILL";
  syscall_name = λ n. none;
  debug = λ path. path;
}

abbrev jail : Jail
jail = record { child = 2; child_start = 4; meta = some "/meta"; cgroups = "/cg" ∷ [] }

all_written : (write_message one_codec (λ chunk. done tt) exit_status).1 ≡ ok tt
unfolding write_message
all_written = refl

pub all_sent : kernel.stream ≡ concat (write_message one_codec (λ chunk. done tt) exit_status).0
unfolding write_message to_be_bytes
all_sent = refl

read_message-write_message_example :
    read_message one_codec
      (concat (write_message one_codec (λ chunk. done tt) exit_status).0 ++ 7 ∷ [])
    ≡ ok (exit_status, 7 ∷ [])
read_message-write_message_example =
    read_message-write_message one_codec (λ chunk. done tt) exit_status bytes (7 ∷ []) refl refl
      (omega arith) all_written

cut_stream : (0 ∷ 0 ∷ 0 ∷ 0 ∷ 0 ∷ 0 ∷ 0 ∷ 3 ∷ 1 ∷ []) ++ 2 ∷ 3 ∷ [] ≡ frame bytes
unfolding to_be_bytes
cut_stream = refl

read_message-truncated_example :
    (text : String) × (read_message one_codec (0 ∷ 0 ∷ 0 ∷ 0 ∷ 0 ∷ 0 ∷ 0 ∷ 3 ∷ 1 ∷ [])
      ≡ err (record { contexts = text ∷ []; cause = io "failed to fill whole buffer" }))
read_message-truncated_example =
    read_message-truncated one_codec bytes (0 ∷ 0 ∷ 0 ∷ 0 ∷ 0 ∷ 0 ∷ 0 ∷ 3 ∷ 1 ∷ []) (3 ∷ []) 2
      (omega arith) cut_stream

wait-write_message_example : (wait one_codec kernel jail).1 ≡ some (ok exit_status)
wait-write_message_example =
    wait-write_message one_codec kernel jail (λ chunk. done tt) exit_status bytes (interrupted ∷ [])
      [] refl refl (omega arith) all_written all_sent refl

abbrev cut_kernel : JailKernel
cut_kernel = record kernel { stream = 0 ∷ 0 ∷ 0 ∷ 0 ∷ 0 ∷ 0 ∷ 0 ∷ 3 ∷ 1 ∷ [] }

wait-truncated_example :
    (more : List JailCall) × ((wait one_codec cut_kernel jail).0 ≡ kill 9 ∷ more)
    × ((wait one_codec cut_kernel jail).1
        ≡ some (
            ok (record {
              status = signaled 2 9;
              user_time = 0;
              system_time = 0;
              wall_time = 16;
              max_rss = 0;
            })))
wait-truncated_example =
    wait-truncated one_codec cut_kernel jail bytes (3 ∷ []) 2 (interrupted ∷ []) [] (omega arith)
      cut_stream refl

-- a child that is not there
abbrev lost_kernel : JailKernel
lost_kernel = record kernel { replies = refused ∷ refused ∷ [] }

message_read : read_message one_codec lost_kernel.stream ≢ panicked
unfolding read_message
message_read e = cc

wait-stuck_example : (wait one_codec lost_kernel jail).1 ≡ none
wait-stuck_example = wait-stuck one_codec lost_kernel jail (inr refl, (inr refl, tt)) message_read

abbrev refused_call : WaitidStatus
refused_call = record exit_status { status = syscalled 2 (pos 41); user_time = 1500000 }

meta_written : (wait_write_meta_file one_codec kernel "/meta" refused_call).1 ≡ ok tt
unfolding wait_write_meta_file
meta_written = refl

wait_write_meta_file-read_example :
    read_meta (text_of (wait_write_meta_file one_codec kernel "/meta" refused_call).0)
    ≡ some
        (record { time = 1500; time_sys = 0; time_wall = 0; mem = 1024; ending = by_syscall "#41" })
unfolding display
wait_write_meta_file-read_example =
    wait_write_meta_file-read kernel one_codec (λ signal. unfold holds in refl) (λ n name h. cc)
      "/meta" refused_call meta_written
