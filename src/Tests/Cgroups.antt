-- ===== src/Tests/Cgroups.antt =====
-- A cgroup whose first directory is there already.
use eval_python.Prelude.{
  ℕ, ◌+◌, ◌≡◌, refl, true, false, String, List, [], ◌∷◌, ok, done, str_eq, if◌then◌else◌, ◌⊎◌,
}
use eval_python.Cgroups.{
  CGroup, CgroupKernel, made, taken, candidate, cgroup_root, search, new_cgroup,
}
use eval_python.Cgroups.Search.{IsExhausted, IsEnded, search-cases, new_cgroup-made}

abbrev busy : CgroupKernel
busy = record {
  exists = λ path. true;
  root_created = λ path. done tt;
  created = λ path.
      if str_eq path "/sys/fs/cgroup/omegajail/omegajail_000000000000000a" then taken else made;
  written = λ path contents. done tt;
  drawn = λ i. 10 + i;
  debug = λ path. path;
}

abbrev second_cgroup : CGroup
second_cgroup = record { path = "/sys/fs/cgroup/omegajail/omegajail_000000000000000b"; v2 = true }

second_made : (new_cgroup busy "" "/omegajail").1 ≡ ok second_cgroup
unfolding new_cgroup eval_python.Prelude.join eval_python.Prelude.digit eval_python.Prelude.spell
    eval_python.Prelude.split
second_made = refl

new_cgroup-made_example :
    (draw : ℕ) × (second_cgroup
      ≡ record { path = candidate (cgroup_root "" "/omegajail") draw; v2 = str_eq "" "" })
    × (busy.created (candidate (cgroup_root "" "/omegajail") draw) ≡ made)
new_cgroup-made_example = new_cgroup-made busy "" "/omegajail" second_cgroup second_made

search-cases_example :
    IsExhausted busy "/cg" (10 ∷ 11 ∷ []) (search busy "/cg" true (10 ∷ 11 ∷ []))
    ⊎ IsEnded busy "/cg" true (10 ∷ 11 ∷ []) (search busy "/cg" true (10 ∷ 11 ∷ []))
search-cases_example = search-cases busy "/cg" true (10 ∷ 11 ∷ [])
