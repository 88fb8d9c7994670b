-- ===== src/Tests/Start.antt =====
-- The init process on a system that grants everything, before and after the fork.
use eval_python.Prelude.{
  climbs, All, is_absolute, split, ℕ, zero, suc, ◌==◌, ◌<◌, ◌≡◌, refl, arith, ltb, Bool, true,
  false, ◌&&◌, ◌||◌, if◌then◌else◌, some, List, [], ◌∷◌, ◌++◌, map, ok, done, failed, errno, pos,
  Io,
}
use eval_python.Sys.Status.{WaitidStatus}
use eval_python.Options.Types.{JailOptions}
use eval_python.Init.Affinity.{CpuSets, AffinityKernel, set_cpu_affinity}
use eval_python.Init.FirstCpu.{in_force, set_cpu_affinity-single}
use eval_python.Init.Start.{
  InitCall, InitKernel, parent_of, returned, run, watch, close_ranges, dropped, child_sock,
  read_pipe, close, write_pipe, wait_call, write_status,
}
use eval_python.Init.Forked.{forks}
use eval_python.Init.BeforeFork.{IsSandboxed, calls_until_fork, run-IsSandboxed}
use eval_python.Init.Inherited.{open_after, spared, close_ranges-spared}
use eval_python.Init.Reported.{request_calls, waited_until, watch-returned}
use eval_python.Init.Namespaces.{private_mount, rootfs_mount, readonly_root, tmp_mount}
use eval_python.Init.Confined.{mounts_made, run-confined}
use eval_python.Options.Confined.{IsWithin}
use eval_python.Options.Writable.{IsRequested}
use eval_python.Tests.Options.{quoted, quiet_host, run_args, run_rootfs, run_options, run_new}
use eval_python.Tests.Streams.{opening}
use eval_python.Tests.Mounts.{mounting}
use eval_python.Tests.Init.{granting as privileges_granted, sleeping}
use eval_python.Tests.Child.{granting as child_granted}

abbrev pub same : Bool → Bool → Bool
same true b = b
same false true = false
same false false = true

abbrev pub agree : ℕ → (ℕ → Bool) → (ℕ → Bool) → Bool
agree zero s t = true
agree (suc n) s t = same (s n) (t n) && agree n s t

pub agree_lem : (n : ℕ) (s t : ℕ → Bool) (j : ℕ) → agree n s t ≡ true → j < n → s j ≡ t j
agree_lem zero s t j h small = elim small [ ]
agree_lem (suc n) s t j h small = ground (arith, agree_lem n s t j)

-- the value, for one of eight processors
abbrev pub for_cpu : {A : Type 0} → ℕ → A → Io A
for_cpu i a = if ltb i 8 then done a else failed (errno 22)

pub below_eight : {A : Type 0} (a : A) (i : ℕ) → i < 8 → for_cpu i a ≡ done a
below_eight a i h = ground arith

-- sets of eight processors
abbrev pub eight_cpus : CpuSets
eight_cpus = record {
  CpuSet = ℕ → Bool;
  count = 8;
  empty = λ i. false;
  is_set = λ s i. for_cpu i (s i);
  set = λ s i. for_cpu i (λ j. i == j || s j);
  equal = agree 8;
  contains = λ s i. s i;
  is_set_lem = λ s i h. below_eight (s i) i h;
  inserted = λ s i j. i == j || s j;
  set_lem = λ s i h. below_eight (λ j. i == j || s j) i h;
  contains-inserted = λ s i j h. refl;
  contains-empty = λ j. refl;
  equal_lem = λ s t j h small. agree_lem 8 s t j h small;
}

-- all processors but the first two
abbrev pub upper : ℕ → Bool
upper i = ltb 1 i

abbrev pub pinning : AffinityKernel eight_cpus
pinning = record { affinity = done upper; affinity_set = λ s. done tt }

upper_below : (i : ℕ) → i < 2 → upper i ≡ false
upper_below i h = ground arith

pinned : (set_cpu_affinity eight_cpus pinning).1 ≡ ok tt
unfolding set_cpu_affinity
pinned = refl

set_cpu_affinity-single_example :
    in_force eight_cpus upper (set_cpu_affinity eight_cpus pinning).0 3 ≡ (2 == 3)
set_cpu_affinity-single_example =
    set_cpu_affinity-single eight_cpus pinning upper 2 3 refl (omega arith, refl, upper_below)
      pinned (omega arith)

abbrev pub starting : InitKernel eight_cpus
starting = record {
  known = λ n. false;
  affinity = pinning;
  namespaces = mounting;
  privileges = privileges_granted;
  streams = opening;
  waits = sleeping;
  child = child_granted;
  setup_done = ok tt;
  uid = 1000;
  gid = 100;
  uids_set = done tt;
  gids_set = done tt;
  socket = 4;
  ranges = λ first last flags. pos 0;
  pair = done tt;
  pipe = done tt;
  forked = done (parent_of 2);
  request_sent = ok tt;
  pidfd = λ child flags. pos 9;
  pidfd_sent = λ fd. done tt;
  response = ok tt;
  now = 0;
  status_sent = λ status. ok tt;
}

start_forks : forks eight_cpus (run eight_cpus starting run_options).0 ≡ true
unfolding run set_cpu_affinity eval_python.Init.Namespaces.setup_net_namespace
    eval_python.Init.Namespaces.setup_mount_namespace eval_python.Init.Streams.redirect_streams
    eval_python.Init.Privileges.drop_privileges eval_python.Sys.Capabilities.set_all_securebits
    eval_python.Sys.Errno.check_err eval_python.Sys.Capabilities.capset
    eval_python.Sys.Capabilities.set_no_new_privs eval_python.Sys.Files.close_range
start_forks = refl

run-IsSandboxed_example :
    IsSandboxed eight_cpus starting run_options
    × (rest : List (InitCall eight_cpus)) × ((run eight_cpus starting run_options).0
        ≡ calls_until_fork eight_cpus starting run_options ++ rest)
run-IsSandboxed_example = run-IsSandboxed eight_cpus starting run_options refl start_forks

run-confined_example :
    (after : List (InitCall eight_cpus)) × ((run eight_cpus starting run_options).0
      ≡ calls_until_fork eight_cpus starting run_options ++ after)
    × (mounts_made (calls_until_fork eight_cpus starting run_options)
        ≡ private_mount "/" ∷ run_options.mounts
          ++ rootfs_mount run_rootfs ∷ private_mount "." ∷ readonly_root ∷ tmp_mount ∷ [])
    × All
        (λ m. IsWithin run_rootfs m × IsRequested quiet_host run_args run_rootfs m)
        run_options.mounts
unfolding is_absolute climbs split
run-confined_example =
    run-confined eight_cpus starting run_options quoted quiet_host run_args run_new
      (("/data", _, "mnt/data", refl, (refl, refl)), tt) refl start_forks

ranges_closed : (close_ranges eight_cpus starting).1 ≡ ok tt
unfolding close_ranges eval_python.Sys.Files.close_range eval_python.Sys.Errno.check_err
ranges_closed = refl

-- Descriptor 3 stays open below a socket that is 4.
close_ranges-spared_example :
    open_after (close_ranges eight_cpus starting).0 (λ n. true) 3
    ≡ (if spared 4 3 then true else false)
close_ranges-spared_example =
    close_ranges-spared eight_cpus starting (λ n. true) 3 (omega arith) (omega arith) (omega arith)
      ranges_closed

-- a time limit of ten milliseconds, after which the child is killed
abbrev pub hurried : JailOptions
hurried = record run_options { wall_time_limit = 10000000 }

pub watched : (watch eight_cpus starting 2 hurried).1 ≡ ok returned
unfolding watch eval_python.Sys.Files.pidfd_open eval_python.Sys.Errno.check_err
    eval_python.Sys.Files.send_file eval_python.Init.WaitChild.wait_child
    eval_python.Init.WaitChild.wait_receive_seccomp_fd
    eval_python.Init.Wait.wait_read_seccomp_notification
watched = refl

watch-returned_example :
    (status : WaitidStatus) × ((waited_until eight_cpus starting 2 hurried 10000000).1
      ≡ some (ok status))
    × (starting.request_sent ≡ ok tt)
    × (starting.response ≡ ok tt)
    × (starting.status_sent status ≡ ok tt)
    × ((watch eight_cpus starting 2 hurried).0
        ≡ dropped child_sock
          ∷ dropped read_pipe
          ∷ close 0
          ∷ close 1
          ∷ (request_calls eight_cpus starting 2 hurried
              ++ dropped write_pipe
                ∷ (map wait_call (waited_until eight_cpus starting 2 hurried 10000000).0
                    ++ write_status status ∷ [])))
watch-returned_example = watch-returned eight_cpus starting 2 hurried watched
