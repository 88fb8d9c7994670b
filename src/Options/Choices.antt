-- ===== src/Options/Choices.antt =====
-- What each branch of `JailOptions::new` for a language chooses, in src/jail/options.rs.
use eval_python.Prelude.{
  ℕ, String, true, false, Option, none, some, List, [], ◌∷◌, ◌++◌, ◌≡◌, refl, sym, ap, subst, inl,
  inr, ok, OkHolds, OkHolds-ok, OkHolds->>=, ok_or, is_absolute,
}
use mathlib.Core.Option.{some-injective}
use eval_python.Args.{Args, Language}
use eval_python.Options.Types.{MountArgs, Draft, Place, default_extra_memory_size_in_bytes}
use eval_python.Options.Sources.{add_sources}
use eval_python.Options.SourceLanguages.{add_sources-append}
use eval_python.Options.Compile.{
  compile_language, csharp_output, compile_c_family, compile_csharp, compile_go, compile_haskell,
  compile_java, compile_javascript, compile_karel, compile_lua, compile_pascal, compile_python2,
  compile_python3, compile_ruby, compile_rust,
}
use eval_python.Options.Run.{
  run_language, run_native, run_lua, run_haskell, run_java, run_python2, run_python3, run_ruby,
  run_go, run_javascript, run_karel, run_csharp,
}
use eval_python.Options.New.{initial_draft, dispatch, choose_command}
use eval_python.Options.Jobs.{
  Job, compiles, runs, job_of, extra_memory, vm_memory, uses_cgroups, policies, contains, policy_of,
  Chosen,
}

module _ (place : Place) (mounts : List MountArgs) where
  compile_c_family-Chosen :
      (run_target profile compiler : String) (options : List String) (lang_flag target : String)
      (sources : List String) (lang : Language)
      → profile ≡ policy_of (compiles lang)
      → contains policies profile ≡ true
      → is_absolute compiler ≡ true
      → extra_memory (compiles lang) ≡ default_extra_memory_size_in_bytes
      → vm_memory (compiles lang) ≡ 0
      → uses_cgroups (compiles lang) ≡ false
      → Chosen run_target (compiles lang) (
          compile_c_family profile compiler options lang_flag target sources (initial_draft mounts))
  unfolding compile_c_family
  compile_c_family-Chosen run_target profile compiler options lang_flag target sources lang n p q e
        v c =
      record {
        is_extra = sym e;
        is_vm = sym v;
        is_cgroups = sym c;
        is_policy = n;
        is_shipped = p;
        has_program = (
          compiler,
          (("-o" ∷ target ∷ []) ++ options ++ add_sources [] lang_flag sources) ++ "-lm" ∷ [],
          ap (λ ws. ws ++ "-lm" ∷ [])
              (add_sources-append lang_flag (compiler ∷ "-o" ∷ target ∷ options) sources),
          inl q,
        );
      }

  compile_language-Chosen :
      (run_target : String) (lang : Language) (target : String) (sources : List String)
      → OkHolds
          (Chosen run_target (compiles lang))
          (compile_language place lang target sources (initial_draft mounts))
  unfolding compile_language compile_csharp compile_go compile_haskell compile_java
      compile_javascript compile_karel compile_lua compile_pascal compile_python2 compile_python3
      compile_ruby compile_rust is_absolute
  compile_language-Chosen run_target Language.c target sources =
      compile_c_family-Chosen run_target _ _ _ _ target sources Language.c refl refl refl refl refl
        refl
  compile_language-Chosen run_target Language.c11_gcc target sources =
      compile_c_family-Chosen run_target _ _ _ _ target sources Language.c11_gcc refl refl refl refl
        refl refl
  compile_language-Chosen run_target Language.c11_clang target sources =
      compile_c_family-Chosen run_target _ _ _ _ target sources Language.c11_clang refl refl refl
        refl refl refl
  compile_language-Chosen run_target Language.cpp target sources =
      compile_c_family-Chosen run_target _ _ _ _ target sources Language.cpp refl refl refl refl
        refl refl
  compile_language-Chosen run_target Language.cpp03_gcc target sources =
      compile_c_family-Chosen run_target _ _ _ _ target sources Language.cpp03_gcc refl refl refl
        refl refl refl
  compile_language-Chosen run_target Language.cpp03_clang target sources =
      compile_c_family-Chosen run_target _ _ _ _ target sources Language.cpp03_clang refl refl refl
        refl refl refl
  compile_language-Chosen run_target Language.cpp11 target sources =
      compile_c_family-Chosen run_target _ _ _ _ target sources Language.cpp11 refl refl refl refl
        refl refl
  compile_language-Chosen run_target Language.cpp11_gcc target sources =
      compile_c_family-Chosen run_target _ _ _ _ target sources Language.cpp11_gcc refl refl refl
        refl refl refl
  compile_language-Chosen run_target Language.cpp11_clang target sources =
      compile_c_family-Chosen run_target _ _ _ _ target sources Language.cpp11_clang refl refl refl
        refl refl refl
  compile_language-Chosen run_target Language.cpp17_gcc target sources =
      compile_c_family-Chosen run_target _ _ _ _ target sources Language.cpp17_gcc refl refl refl
        refl refl refl
  compile_language-Chosen run_target Language.cpp17_clang target sources =
      compile_c_family-Chosen run_target _ _ _ _ target sources Language.cpp17_clang refl refl refl
        refl refl refl
  compile_language-Chosen run_target Language.cpp20_gcc target sources =
      compile_c_family-Chosen run_target _ _ _ _ target sources Language.cpp20_gcc refl refl refl
        refl refl refl
  compile_language-Chosen run_target Language.cpp20_clang target sources =
      compile_c_family-Chosen run_target _ _ _ _ target sources Language.cpp20_clang refl refl refl
        refl refl refl
  compile_language-Chosen run_target Language.csharp target sources =
      OkHolds->>= (Chosen run_target (compiles Language.csharp)) (csharp_output target sources) _
        λ output _. record {
          is_extra = refl;
          is_vm = refl;
          is_cgroups = refl;
          is_policy = refl;
          is_shipped = refl;
          has_program = (_, _, refl, inl refl);
        }
  compile_language-Chosen run_target _ target sources = record {
    is_extra = refl;
    is_vm = refl;
    is_cgroups = refl;
    is_policy = refl;
    is_shipped = refl;
    has_program = (_, _, refl, inl refl);
  }

  run_language-Chosen :
      (run_target : String) (lang : Language) (memory_limit : Option ℕ)
      → Chosen run_target
          (runs lang)
          (run_language place lang run_target memory_limit (initial_draft mounts))
  unfolding run_language run_native run_lua run_haskell run_java run_python2 run_python3 run_ruby
      run_go run_javascript run_karel run_csharp is_absolute
  run_language-Chosen run_target Language.lua memory_limit = record {
    is_extra = refl;
    is_vm = refl;
    is_cgroups = refl;
    is_policy = refl;
    is_shipped = refl;
    has_program = (_, _, refl, inl refl);
  }
  run_language-Chosen run_target Language.java memory_limit = record {
    is_extra = refl;
    is_vm = refl;
    is_cgroups = refl;
    is_policy = refl;
    is_shipped = refl;
    has_program = (_, _, refl, inl refl);
  }
  run_language-Chosen run_target Language.kotlin memory_limit = record {
    is_extra = refl;
    is_vm = refl;
    is_cgroups = refl;
    is_policy = refl;
    is_shipped = refl;
    has_program = (_, _, refl, inl refl);
  }
  run_language-Chosen run_target Language.python memory_limit = record {
    is_extra = refl;
    is_vm = refl;
    is_cgroups = refl;
    is_policy = refl;
    is_shipped = refl;
    has_program = (_, _, refl, inl refl);
  }
  run_language-Chosen run_target Language.python2 memory_limit = record {
    is_extra = refl;
    is_vm = refl;
    is_cgroups = refl;
    is_policy = refl;
    is_shipped = refl;
    has_program = (_, _, refl, inl refl);
  }
  run_language-Chosen run_target Language.python3 memory_limit = record {
    is_extra = refl;
    is_vm = refl;
    is_cgroups = refl;
    is_policy = refl;
    is_shipped = refl;
    has_program = (_, _, refl, inl refl);
  }
  run_language-Chosen run_target Language.ruby memory_limit = record {
    is_extra = refl;
    is_vm = refl;
    is_cgroups = refl;
    is_policy = refl;
    is_shipped = refl;
    has_program = (_, _, refl, inl refl);
  }
  run_language-Chosen run_target Language.csharp memory_limit = record {
    is_extra = refl;
    is_vm = refl;
    is_cgroups = refl;
    is_policy = refl;
    is_shipped = refl;
    has_program = (_, _, refl, inl refl);
  }
  run_language-Chosen run_target Language.javascript memory_limit = record {
    is_extra = refl;
    is_vm = refl;
    is_cgroups = refl;
    is_policy = refl;
    is_shipped = refl;
    has_program = (_, _, refl, inl refl);
  }
  run_language-Chosen run_target Language.karel_java memory_limit = record {
    is_extra = refl;
    is_vm = refl;
    is_cgroups = refl;
    is_policy = refl;
    is_shipped = refl;
    has_program = (_, _, refl, inl refl);
  }
  run_language-Chosen run_target Language.karel_pascal memory_limit = record {
    is_extra = refl;
    is_vm = refl;
    is_cgroups = refl;
    is_policy = refl;
    is_shipped = refl;
    has_program = (_, _, refl, inl refl);
  }
  run_language-Chosen run_target _ memory_limit = record {
    is_extra = refl;
    is_vm = refl;
    is_cgroups = refl;
    is_policy = refl;
    is_shipped = refl;
    has_program = (_, _, refl, inr refl);
  }

  dispatch-Chosen :
      (args : Args) (compile run : Option Language) (job : Job)
      → job_of compile run ≡ some job
      → OkHolds
          (Chosen args.run_target job)
          (dispatch place args compile run (initial_draft mounts))
  unfolding dispatch job_of
  dispatch-Chosen args (some lang) run job e =
      subst
        (λ j.
          OkHolds (Chosen args.run_target j)
            (dispatch place args (some lang) run (initial_draft mounts)))
        (some-injective _ _ e)
        (OkHolds->>= (Chosen args.run_target (compiles lang))
          (ok_or args.compile_source "--compile-source missing") _
          λ sources _. compile_language-Chosen args.run_target lang args.compile_target sources)
  dispatch-Chosen args none (some lang) job e =
      subst
        (λ j.
          Chosen args.run_target j
            (run_language place lang args.run_target args.memory_limit (initial_draft mounts)))
        (some-injective _ _ e) (run_language-Chosen args.run_target lang args.memory_limit)
  dispatch-Chosen args none none job e = cc

  pub choose_command-Chosen :
      (args : Args) (job : Job) {d : Draft}
      → job_of args.compile args.run ≡ some job
      → choose_command place args (initial_draft mounts) ≡ ok d
      → Chosen args.run_target job d
  unfolding choose_command
  choose_command-Chosen args job e h =
      OkHolds-ok (Chosen args.run_target job) _ (dispatch-Chosen args args.compile args.run job e) h
