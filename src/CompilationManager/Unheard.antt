-- ===== src/CompilationManager/Unheard.antt =====
-- Compilations whose compiler is not found, or is killed before it writes anything.
use capnp_ls.Prelude.{
  ◌<◌, true, Option, none, some, List, [], Bytes, ◌≡◌, inl, inr, ◌⊎◌, refl, ap, ◌∙◌, arith, Result,
  ok,
}
use capnp_ls.SubprocessRunner.{
  Processes, Finished, Exec, ran, returned, enoent, exited_1, RunParams, RunResult, success,
  exit_status, build_args, set_working_directory, read_output, collect, exec, child_end, start, run,
}
use capnp_ls.CompileErrorParser.{parse}
use capnp_ls.SymbolResolver.{Filesystem}
use capnp_ls.SymbolResolver.Resolve.{Request, Node}
use capnp_ls.CompilationManager.{
  CompilationManager, CompileParams, Compiled, build_command, check_capnp_version_compatible,
  handle_result, handle_reader, run_command, compile,
}
use capnp_ls.CompilationManager.Compile.{
  cleared, compiled_file, compile_compatible, handle_result_failed, handle_result_done,
}
use capnp_ls.CompilationManager.Effects.{run_ok}

-- The call returns with ENOENT, or a signal ends the program, which has written nothing to standard
-- output; the status then holds the signal and no exit code.
pub data Unheard (e : Exec) : Type 0 where
  not_found : e ≡ returned enoent → Unheard e
  killed : (done : Finished) → e ≡ ran done → done.wait_status < 256 → done.output ≡ [] → Unheard e

-- Nothing is reported in no text.
parse_nothing : (file : Bytes) → (parse file [] []).1 ≡ []
unfolding parse
parse_nothing file = refl

module _ {Reader : Type 0} (os : Processes Reader) (fs : Filesystem)
    (load : List Node → Result (Unit {0})) (request_of : Reader → Result Request)
    (bundled : Option Bytes) where
  abbrev result_of_end : Finished → RunResult Reader
  result_of_end done = record {
    status = success;
    exit_code = exit_status done.wait_status;
    maybe_reader = none;
    text_output = [];
    error_text = done.error_output;
  }

  abbrev command_params : CompileParams → Bytes → RunParams
  command_params params command = record {
    command = command;
    working_dir = params.working_dir;
    is_capnp_message_output = true;
  }

  collect_nothing :
      (params : CompileParams) (command : Bytes) (done : Finished)
      → os.try_read_message done.output ≡ ok none
      → collect os (command_params params command) done ≡ ok (result_of_end done)
  unfolding collect read_output
  collect_nothing params command done r = ground arith

  run_start :
      (p : RunParams) (argv : List Bytes)
      → set_working_directory os p.working_dir ≡ true
      → os.launches p.command ≡ true
      → build_args p.command ≡ some argv
      → run os p ≡ collect os p (child_end os (exec os argv))
  unfolding run start
  run_start p argv d l a = ground arith

  result_cleared :
      (params : CompileParams) (file : Bytes) (done : Finished) (c : Compiled)
      → (exit_status done.wait_status ≡ 0) ⊎ (done ≡ exited_1)
      → handle_result os fs load request_of bundled params file
          (ok (result_of_end done))
          (cleared c)
        ≡ cleared c
  unfolding handle_reader
  result_cleared params file done c (inl e) =
      handle_result_done os fs load request_of bundled params file (result_of_end done) (cleared c)
        (ground arith)
  result_cleared params file done c (inr e) =
      ap
        (λ d.
          handle_result os fs load request_of bundled params file (ok (result_of_end d))
            (cleared c))
        e
      ∙ handle_result_failed os fs load request_of bundled params file (result_of_end exited_1)
          (cleared c) refl
      ∙ ap (λ m. record c { diagnostic_map = m }) (parse_nothing file)

  Unheard-end :
      (e : Exec)
      → os.try_read_message [] ≡ ok none
      → Unheard e
      → let done = child_end os e in
        ((exit_status done.wait_status ≡ 0) ⊎ (done ≡ exited_1))
        × (os.try_read_message done.output ≡ ok none)
  unfolding child_end
  Unheard-end e r (not_found f) = rw f (inr refl, r)
  Unheard-end e r (killed done f w o) = rw f (inl (omega (arith, w)), ap os.try_read_message o ∙ r)

  -- Where the check says that the version is compatible, the working directory can be entered, a child can be made, no
  -- message is read from no output, and the compiler is not found, or a signal ends it before it
  -- writes to standard output, a compilation clears the diagnostics and leaves the symbols, as one
  -- without errors does.
  pub compile-Unheard :
      (params : CompileParams) (m : CompilationManager) (c : Compiled) (command : Bytes)
      (argv : List Bytes)
      → (check_capnp_version_compatible os fs load request_of bundled params.compiler_path m).0
        ≡ true
      → set_working_directory os params.working_dir ≡ true
      → os.launches command ≡ true
      → os.try_read_message [] ≡ ok none
      → build_command bundled params ≡ some command
      → build_args command ≡ some argv
      → Unheard (exec os argv)
      → (compile os fs load request_of bundled params (m, c)).1 ≡ cleared c
  compile-Unheard params m c command argv e d l r b a u =
      let done = child_end os (exec os argv) in
      let (silent, nothing_read) = Unheard-end (exec os argv) r u in
      compile_compatible os fs load request_of bundled params m c e
      ∙ ap (λ t. run_command os fs load request_of bundled params t (cleared c)) b
      ∙ run_ok os fs load request_of bundled params command (result_of_end done) (cleared c) (
          run_start (command_params params command) argv d l a
          ∙ collect_nothing params command done nothing_read)
      ∙ result_cleared params (compiled_file params) done c silent
