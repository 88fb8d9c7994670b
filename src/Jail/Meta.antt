-- ===== src/Jail/Meta.antt =====
-- A reader of the meta file of src/jail/mod.rs.
use eval_python.Prelude.{ℕ, String, Option, none, some, List, [], ◌∷◌, as_micros, ℤ, pos, negsuc}
use Prim.Native.String.{◌++◌}
use eval_python.Prelude.Decimal.{read_digits, read_int}
use eval_python.Prelude.Fields.{fields, lookup}
use eval_python.Sys.Status.{WaitStatus, exited, syscalled, signaled, WaitidStatus}
use eval_python.Jail.Wait.{JailCall, write_text, JailKernel, name_or_number}

-- How the program has ended: with an exit code, by a signal, or by a system call that is not allowed.
pub data Ending : Type 0 where
  by_exit : ℤ → Ending
  by_signal by_syscall : String → Ending

-- Times are in microseconds, memory in bytes.
pub record Meta : Type 0 where
  pub time : ℕ
  pub time_sys : ℕ
  pub time_wall : ℕ
  pub mem : ℕ
  pub ending : Ending

abbrev read_number : Option String → Option ℕ
read_number none = none
read_number (some text) = read_digits 0 text

abbrev exit_with : Option ℤ → Option Ending
exit_with none = none
exit_with (some code) = some (by_exit code)

-- by the values of `status`, `signal` and `syscall`
abbrev read_ending : Option String → Option String → Option String → Option Ending
read_ending (some code) signal syscall = exit_with (read_int code)
read_ending none none syscall = none
read_ending none (some signal) none = some (by_signal signal)
read_ending none (some signal) (some syscall) = some (by_syscall syscall)

abbrev pub all_of : Option ℕ → Option ℕ → Option ℕ → Option ℕ → Option Ending → Option Meta
all_of (some time) (some time_sys) (some time_wall) (some mem) (some ending) =
    some (record {
      time = time;
      time_sys = time_sys;
      time_wall = time_wall;
      mem = mem;
      ending = ending;
    })
all_of time time_sys time_wall mem ending = none

abbrev pub meta_of_fields : List (String × String) → Option Meta
meta_of_fields fs =
    all_of (read_number (lookup "time" fs)) (read_number (lookup "time-sys" fs))
      (read_number (lookup "time-wall" fs)) (read_number (lookup "mem" fs))
      (read_ending (lookup "status" fs) (lookup "signal" fs) (lookup "syscall" fs))

abbrev pub read_meta : String → Option Meta
read_meta text = meta_of_fields (fields text)

-- the text that is in the file after these calls
abbrev pub text_of : List JailCall → String
text_of [] = ""
text_of (write_text text ∷ calls) = text ++ text_of calls
text_of (other ∷ calls) = text_of calls

module _ (kernel : JailKernel) where
  abbrev pub ending_of : WaitStatus → Option Ending
  ending_of (exited pid code) = some (by_exit code)
  ending_of (signaled pid signal) = some (by_signal (kernel.signal_name signal))
  ending_of (syscalled pid (pos n)) = some (by_syscall (name_or_number n (kernel.syscall_name n)))
  ending_of (syscalled pid (negsuc n)) = none

  abbrev pub meta_of : WaitidStatus → Option Meta
  meta_of status =
      all_of (some (as_micros status.user_time)) (some (as_micros status.system_time))
        (some (as_micros status.wall_time)) (some status.max_rss) (ending_of status.status)
