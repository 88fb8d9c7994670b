-- ===== src/Tests/Parent.antt =====
-- The parent of a sandboxed child that is put into a cgroup.
use eval_python.Prelude.{
  ℕ, ◌≡◌, refl, true, false, String, List, [], ◌∷◌, ◌++◌, All, ok, done, some, none, pos, Outcome,
  bail, format, split, ◌⊎◌,
}
use eval_python.Cgroups.{CGroup, CgroupKernel, made}
use eval_python.Parent.{
  ParentKernel, send_done, read_request, receive_pidfd, send_response, setup_child, setup_cgroup,
}
use eval_python.Parent.Pid.{
  get_pid, find_pid, find_pid-first, IsOther, parse_i32, trim_start, trim_end,
}
use eval_python.Parent.Setup.{mapping_calls, setup_child-order}
use eval_python.Tests.Options.{run_options}

abbrev pub pidfd_text : String
pidfd_text = "pos:\t0\nflags:\t02\nPid:\t7\nNSpid:\t7\t2\n"

abbrev pub free : CgroupKernel
free = record {
  exists = λ path. true;
  root_created = λ path. done tt;
  created = λ path. made;
  written = λ path contents. done tt;
  drawn = λ i. i;
  debug = λ path. path;
}

abbrev pub helping : ParentKernel
helping = record {
  uid = 1000;
  gid = 100;
  opened = λ path. done tt;
  written = λ path contents. done tt;
  done_sent = ok tt;
  request = ok tt;
  pidfd = done tt;
  fdinfo = done pidfd_text;
  is_cgroup_v2 = true;
  cgroups = free;
  response_sent = ok tt;
  debug = λ path. path;
}

pid_found : get_pid (done pidfd_text) ≡ ok (pos 7)
unfolding get_pid split
pid_found = refl

find_pid-first_example :
    (All IsOther ("pos:\t0" ∷ "Pid:\t7" ∷ [])
      × (find_pid "" ("pos:\t0" ∷ "Pid:\t7" ∷ []) ≡ bail "Pid label not found: "))
    ⊎ ((before : List String) × (line value : String) × (after : List String) × ("pos:\t0"
            ∷ "Pid:\t7" ∷ []
          ≡ before ++ line ∷ after)
        × All IsOther before
        × (split line b':' ≡ "Pid" ∷ value ∷ [])
        × (find_pid "" ("pos:\t0" ∷ "Pid:\t7" ∷ []) ≡ parse_i32 (trim_end (trim_start value))))
find_pid-first_example = find_pid-first "" ("pos:\t0" ∷ "Pid:\t7" ∷ [])

abbrev pub jail_cgroup : CGroup
jail_cgroup = record { path = "/sys/fs/cgroup/omegajail/cpp/omegajail_0000000000000000"; v2 = true }

pub child_set_up : (setup_child helping 42 run_options).1 ≡ ok (jail_cgroup ∷ [])
unfolding setup_child get_pid split eval_python.Cgroups.new_cgroup eval_python.Cgroups.add_pid
    eval_python.Prelude.join eval_python.Prelude.digit eval_python.Prelude.spell
child_set_up = refl

setup_child-order_example :
    ((setup_cgroup helping run_options (some "/omegajail")).1 ≡ ok (jail_cgroup ∷ []))
    × ((setup_child helping 42 run_options).0
        ≡ mapping_calls helping 42
          ++ (send_done
              ∷ read_request
              ∷ receive_pidfd
              ∷ ((setup_cgroup helping run_options (some "/omegajail")).0 ++ send_response ∷ [])))
setup_child-order_example =
    setup_child-order helping 42 run_options (jail_cgroup ∷ []) refl child_set_up
