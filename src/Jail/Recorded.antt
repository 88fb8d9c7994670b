-- ===== src/Jail/Recorded.antt =====
-- The meta file that `wait_write_meta_file` of src/jail/mod.rs writes, read back.
use eval_python.Prelude.{
  ok-injective, ℕ, suc, ◌≡◌, refl, ap, ◌∙◌, sym, String, Option, none, some, List, [], ◌∷◌,
  filter_map, false, ok, as_micros, ℤ, pos, negsuc, display, display_int, format, split, attempt,
}
use Prim.Native.String.{◌++◌}
use text.Mathlib.TextLemmas.{append_assoc}
use eval_python.Prelude.Traced.{Traced, ◌>>◌, >>=-eq-ok, call, context, lift}
use eval_python.Prelude.Decimal.{read_digits-display, read_int-display_int}
use eval_python.Prelude.Fields.{
  holds, split_once, fields, holds-append, display-holds, line, fields-line,
}
use eval_python.Jail.Messages.{Codec}
use eval_python.Sys.Status.{WaitStatus, exited, syscalled, signaled, WaitidStatus}
use eval_python.Jail.Wait.{
  JailCall, create_file, JailKernel, name_or_number, status_line, write_line, wait_write_meta_file,
}
use eval_python.Jail.Meta.{all_of, meta_of_fields, read_meta, text_of, ending_of, meta_of}

module _ (kernel : JailKernel) where
  -- the fields behind the first four
  abbrev last_fields : WaitStatus → List (String × String)
  last_fields (exited pid code) = ("status", display_int code) ∷ []
  last_fields (signaled pid signal) = ("signal", kernel.signal_name signal) ∷ []
  last_fields (syscalled pid (pos n)) =
      ("signal", "SIGSYS") ∷ ("syscall", name_or_number n (kernel.syscall_name n)) ∷ []
  last_fields (syscalled pid (negsuc n)) = []

  fields-of_line :
      (name value : String)
      → holds b'\n' name ≡ false
      → holds b':' name ≡ false
      → holds b'\n' value ≡ false
      → fields (line name value ++ "") ≡ (name, value) ∷ []
  unfolding filter_map split split_once
  fields-of_line name value h colon k = fields-line name value "" h colon k

  display_int-holds : (i : ℤ) → holds b'\n' (display_int i) ≡ false
  unfolding holds
  display_int-holds (pos n) = display-holds b'\n' n refl
  display_int-holds (negsuc n) =
      rw (holds-append b'\n' "-" (display (suc n)), display-holds b'\n' (suc n) refl) refl

  module _ (codec : Codec WaitidStatus)
      (plain : (signal : ℕ) → holds b'\n' (kernel.signal_name signal) ≡ false)
      (plain' : (n : ℕ) (name : String)
        → kernel.syscall_name n ≡ some name
        → holds b'\n' name ≡ false) where
    name_or_number-holds :
        (n : ℕ) (name : Option String)
        → kernel.syscall_name n ≡ name
        → holds b'\n' (name_or_number n name) ≡ false
    unfolding holds
    name_or_number-holds n none h =
        rw (holds-append b'\n' "#" (display n), display-holds b'\n' n refl) refl
    name_or_number-holds n (some name) h = plain' n name h

    fields-status_line :
        (status : WaitStatus) (text : String)
        → status_line codec kernel status ≡ ok text
        → fields (text ++ "") ≡ last_fields status
    unfolding status_line holds
    fields-status_line (exited pid code) text h =
        ap (λ t. fields (t ++ "")) (sym (ok-injective h))
        ∙ fields-of_line "status" (display_int code) refl refl (display_int-holds code)
    fields-status_line (signaled pid signal) text h =
        ap (λ t. fields (t ++ "")) (sym (ok-injective h))
        ∙ fields-of_line "signal" (kernel.signal_name signal) refl refl (plain signal)
    fields-status_line (syscalled pid (pos n)) text h =
        let name = name_or_number n (kernel.syscall_name n) in
        let last = line "syscall" name in
        ap (λ t. fields (t ++ "")) (sym (ok-injective h))
        ∙ ap (λ t. fields (t ++ "")) (append_assoc "signal:SIGSYS\n" "syscall:" (name ++ "\n"))
        ∙ ap fields (append_assoc "signal:SIGSYS\n" last "")
        ∙ fields-line "signal" "SIGSYS" (last ++ "") refl refl refl
        ∙ ap (◌∷◌ ("signal", "SIGSYS")) (
            fields-of_line "syscall" name refl refl
              (name_or_number-holds n (kernel.syscall_name n) refl))
    fields-status_line (syscalled pid (negsuc n)) text h = cc

    meta_of_fields-last :
        (a b c d : ℕ) (status : WaitStatus)
        → meta_of_fields (
            ("time", display a)
            ∷ ("time-sys", display b)
            ∷ ("time-wall", display c)
            ∷ ("mem", display d)
            ∷ last_fields status)
          ≡ all_of (some a) (some b) (some c) (some d) (ending_of kernel status)
    meta_of_fields-last a b c d (exited pid code) =
        rw
          (
            read_digits-display a,
            read_digits-display b,
            read_digits-display c,
            read_digits-display d,
            read_int-display_int code,
          )
          refl
    meta_of_fields-last a b c d (signaled pid signal) =
        rw
          (
            read_digits-display a,
            read_digits-display b,
            read_digits-display c,
            read_digits-display d,
          )
          refl
    meta_of_fields-last a b c d (syscalled pid (pos n)) =
        rw
          (
            read_digits-display a,
            read_digits-display b,
            read_digits-display c,
            read_digits-display d,
          )
          refl
    meta_of_fields-last a b c d (syscalled pid (negsuc n)) =
        rw
          (
            read_digits-display a,
            read_digits-display b,
            read_digits-display c,
            read_digits-display d,
          )
          refl

    write_line-ok :
        (meta text : String) (next : Traced JailCall (Unit {0}))
        → (write_line codec kernel meta text >> next).1 ≡ ok tt
        → (next.1 ≡ ok tt)
          × (text_of (write_line codec kernel meta text >> next).0 ≡ text ++ text_of next.0)
    unfolding write_line
    write_line-ok meta text next h =
        let (_, _, rest, trace) = >>=-eq-ok (write_line codec kernel meta text) (λ _. next) h in
        (rest, ap text_of trace)

    -- the text of a meta file that is written without an error, up to the line of the status
    wait_write_meta_file-text :
        (meta : String) (status : WaitidStatus)
        → (wait_write_meta_file codec kernel meta status).1 ≡ ok tt
        → (text : String) × (status_line codec kernel status.status ≡ ok text)
          × (text_of (wait_write_meta_file codec kernel meta status).0
              ≡ line "time" (display (as_micros status.user_time))
                ++ (line "time-sys" (display (as_micros status.system_time))
                    ++ (line "time-wall" (display (as_micros status.wall_time))
                        ++ (line "mem" (display status.max_rss) ++ (text ++ "")))))
    unfolding wait_write_meta_file write_line
    wait_write_meta_file-text meta status h =
        let time = line "time" (display (as_micros status.user_time)) in
        let time_sys = line "time-sys" (display (as_micros status.system_time)) in
        let time_wall = line "time-wall" (display (as_micros status.wall_time)) in
        let mem = line "mem" (display status.max_rss) in
        let (_, _, h1, t1) =
          >>=-eq-ok
            (context (format ("create " ∷ kernel.debug meta ∷ []))
              (call (create_file meta) (attempt kernel.created)))
            _ h in
        let (h2, t2) = write_line-ok meta time _ h1 in
        let (h3, t3) = write_line-ok meta time_sys _ h2 in
        let (h4, t4) = write_line-ok meta time_wall _ h3 in
        let (h5, t5) = write_line-ok meta mem _ h4 in
        let (text, written, _, t6) =
          >>=-eq-ok (lift (status_line codec kernel status.status)) (write_line codec kernel meta)
            h5 in
        (
          text,
          written,
          ap text_of t1
              ∙ t2
              ∙ ap (λ t. time ++ t)
                  (t3
                    ∙ ap (λ t. time_sys ++ t)
                        (t4 ∙ ap (λ t. time_wall ++ t) (t5 ∙ ap (λ t. mem ++ t) (ap text_of t6)))),
        )

    -- From a meta file that is written without an error, the times in microseconds, the memory and the
    -- end of the program are read back as they are in the status: the exit code, the name of the signal,
    -- or the name of the system call that is not allowed, or its number with a `#` where it has none.
    -- The hypothesis is that the names of signals and of system calls have no line break.
    pub wait_write_meta_file-read :
        (meta : String) (status : WaitidStatus)
        → (wait_write_meta_file codec kernel meta status).1 ≡ ok tt
        → read_meta (text_of (wait_write_meta_file codec kernel meta status).0)
          ≡ meta_of kernel status
    unfolding holds
    wait_write_meta_file-read meta status h =
        let (text, written, same) = wait_write_meta_file-text meta status h in
        let a = as_micros status.user_time in
        let b = as_micros status.system_time in
        let c = as_micros status.wall_time in
        ap read_meta same
        ∙ ap meta_of_fields (
            fields-line "time" (display a) _ refl refl (display-holds b'\n' a refl)
            ∙ ap (◌∷◌ ("time", display a)) (
                fields-line "time-sys" (display b) _ refl refl (display-holds b'\n' b refl)
                ∙ ap (◌∷◌ ("time-sys", display b)) (
                    fields-line "time-wall" (display c) _ refl refl (display-holds b'\n' c refl)
                    ∙ ap (◌∷◌ ("time-wall", display c)) (
                        fields-line "mem" (display status.max_rss) (text ++ "") refl refl
                          (display-holds b'\n' status.max_rss refl)
                        ∙ ap (◌∷◌ ("mem", display status.max_rss))
                            (fields-status_line status.status text written)))))
        ∙ meta_of_fields-last a b c status.max_rss status.status
