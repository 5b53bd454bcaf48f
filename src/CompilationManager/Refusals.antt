-- ===== src/CompilationManager/Refusals.antt =====
-- Compilations that run no compiler.
use capnp_ls.Prelude.{
  true, false, Option, some, List, [], ◌∷◌, Bytes, ◌≡◌, ◌⊎◌, inl, inr, refl, ◌∙◌, arith, Bool-cases,
  Option-cases, Result,
}
use capnp_ls.SubprocessRunner.{Processes, run, set_working_directory}
use capnp_ls.SymbolResolver.{Filesystem}
use capnp_ls.SymbolResolver.Resolve.{Request, Node}
use capnp_ls.CompilationManager.{
  CompilationManager, CompileParams, Compiled, build_command, check_capnp_version_compatible,
  check_at, handle_reader, handle_result, run_command, compile_checked, compile,
}
use capnp_ls.CompilationManager.Compile.{cleared, compile_compatible}
use capnp_ls.CompilationManager.Effects.{run_none}

module _ {Reader : Type 0} (os : Processes Reader) (fs : Filesystem)
    (load : List Node → Result (Unit {0})) (request_of : Reader → Result Request)
    (bundled : Option Bytes) where
  -- The check returns what the manager then holds, and leaves alone a manager that has found a
  -- compatible compiler.
  pub check_capnp_version_compatible_lem :
      (path : Bytes) (m : CompilationManager)
      → let after = check_capnp_version_compatible os fs load request_of bundled path m in
        (after.0 ≡ after.1.is_capnp_version_compatible)
        × ((m.is_capnp_version_compatible ≡ false) ⊎ (after ≡ (true, m)))
  unfolding check_capnp_version_compatible check_at
  check_capnp_version_compatible_lem [] m = ground arith
  check_capnp_version_compatible_lem (c ∷ cs) m = ground arith

  -- Where no compiler path is given and no version has been found compatible, a compilation
  -- changes nothing, also where a bundled compiler is there.
  pub compile_without_path :
      (params : CompileParams) (m : CompilationManager) (c : Compiled)
      → params.compiler_path ≡ []
      → m.is_capnp_version_compatible ≡ false
      → compile os fs load request_of bundled params (m, c) ≡ (m, c)
  unfolding compile compile_checked check_capnp_version_compatible check_at
  compile_without_path params m c e h = rw (e, h) refl

  run_no_directory :
      (params : CompileParams) (command : Bytes) (c : Compiled)
      → set_working_directory os params.working_dir ≡ false
      → run_command os fs load request_of bundled params (some command) c ≡ c
  unfolding run_command handle_result handle_reader run
  run_no_directory params command c e = ground arith

  run_no_child :
      (params : CompileParams) (command : Bytes) (c : Compiled)
      → set_working_directory os params.working_dir ≡ true
      → os.launches command ≡ false
      → run_command os fs load request_of bundled params (some command) c ≡ c
  unfolding run_command handle_result handle_reader run
  run_no_child params command c d e = ground arith

  -- Where the working directory cannot be entered, or no child can be made for any command, a
  -- compilation with a compatible compiler clears the diagnostics and leaves the symbols, as one
  -- without errors does.
  pub compile_no_directory :
      (params : CompileParams) (m : CompilationManager) (c : Compiled)
      → (check_capnp_version_compatible os fs load request_of bundled params.compiler_path m).0
        ≡ true
      → (set_working_directory os params.working_dir ≡ false)
        ⊎ ((command : Bytes) → os.launches command ≡ false)
      → (compile os fs load request_of bundled params (m, c)).1 ≡ cleared c
  compile_no_directory params m c e d =
      let run_clears : (command : Bytes)
          → run_command os fs load request_of bundled params (some command) (cleared c)
            ≡ cleared c =
        λ command. elim (Bool-cases (set_working_directory os params.working_dir)) [
          | inr no_directory ↦ run_no_directory params command (cleared c) no_directory
          | inl entered ↦ elim d [
            | inl no_directory ↦ run_no_directory params command (cleared c) no_directory
            | inr no_child ↦ run_no_child params command (cleared c) entered (no_child command)
          ]
        ] in
      compile_compatible os fs load request_of bundled params m c e
      ∙ elim (Option-cases (build_command bundled params)) [
        | inl b ↦ rw b (run_none os fs load request_of bundled params (cleared c))
        | inr (command, b) ↦ rw b (run_clears command)
      ]
