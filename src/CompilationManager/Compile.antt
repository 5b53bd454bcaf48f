-- ===== src/CompilationManager/Compile.antt =====
-- What `compile` does to the symbols and to the diagnostics, over all branches of the code.
use capnp_ls.Prelude.{
  ℕ, suc, ◌==◌, true, false, Option, none, some, List, [], ◌∷◌, ◌++◌, Bytes, drop, length, ◌≡◌, ◌≢◌,
  inl, inr, refl, sym, ◌∙◌, subst, arith, Bool-cases, starts_with-append, Result, ok, thrown, find,
  bytes_key,
}
use native.Mathlib.Numerals.{add-one}
use capnp_ls.SubprocessRunner.{Processes, RunResult, run}
use capnp_ls.CompileErrorParser.{DiagnosticMap, parse}
use capnp_ls.CompileErrorParser.Lines.{AllReports, held, parse_lem}
use capnp_ls.LspTypes.{Diagnostic}
use capnp_ls.SymbolResolver.{Filesystem}
use capnp_ls.SymbolResolver.Resolve.{Request, Node}
use capnp_ls.CompilationManager.{
  CompilationManager, CompileParams, Compiled, strip_working_dir, build_command,
  check_capnp_version_compatible, handle_reader, handle_result, run_command, compile_checked,
  compile,
}

-- The directory and the byte behind it are cut off, whatever that byte is.
strip_lem :
    (working_dir rest : Bytes) (c : ℕ)
    → drop (suc (length working_dir)) (working_dir ++ (c ∷ rest)) ≡ rest
strip_lem [] rest c = refl
strip_lem (x ∷ xs) rest c = strip_lem xs rest c

-- The path of a file that starts with the working directory's loses this and the byte behind it,
-- whether or not that byte is a slash.
pub strip_working_dir-append :
    (working_dir rest : Bytes) (c : ℕ)
    → strip_working_dir working_dir (working_dir ++ (c ∷ rest)) ≡ rest
unfolding strip_working_dir
strip_working_dir-append working_dir rest c =
    rw (starts_with-append working_dir (c ∷ rest), add-one (length working_dir))
      (strip_lem working_dir rest c)

-- The map holds diagnostics for this file only, and all of them are reports of the compiler.
pub record OnlyFor (file : Bytes) (m : DiagnosticMap) : Type 0 where
  pub own : AllReports (held file m)
  pub others : (j : Bytes) → j ≢ file → find j m ≡ none

empty-OnlyFor : (file : Bytes) → OnlyFor file []
unfolding find
empty-OnlyFor file = record { own = tt; others = λ j ne. refl }

held_empty : (file : Bytes) (ds : List Diagnostic) → held file [] ++ ds ≡ ds
unfolding find
held_empty file ds = refl

pub parse-OnlyFor : (file text : Bytes) → OnlyFor file (parse file text []).1
parse-OnlyFor file text =
    let (added, adds, status) = parse_lem file text [] in
    let empty = empty-OnlyFor file in
    record {
      own = subst AllReports (sym (adds.own ∙ held_empty file added)) adds.reports;
      others = λ j ne. adds.others j ne ∙ empty.others j ne;
    }

abbrev pub compiled_file : CompileParams → Bytes
compiled_file params = strip_working_dir params.working_dir params.file_name

abbrev pub cleared : Compiled → Compiled
cleared c = record c { diagnostic_map = [] }

module _ {Reader : Type 0} (os : Processes Reader) (fs : Filesystem)
    (load : List Node → Result (Unit {0})) (request_of : Reader → Result Request)
    (bundled : Option Bytes) where
  -- What `compile` runs.
  abbrev pub compile_run : CompileParams → Bytes → Result (RunResult Reader)
  compile_run params command = run os (record {
    command = command;
    working_dir = params.working_dir;
    is_capnp_message_output = true;
  })

  pub handle_result_failed :
      (params : CompileParams) (file : Bytes) (result : RunResult Reader) (c : Compiled)
      → (result.exit_code == 0) ≡ false
      → handle_result os fs load request_of bundled params file (ok result) c
        ≡ record c { diagnostic_map = (parse file result.error_text c.diagnostic_map).1 }
  unfolding handle_result
  handle_result_failed params file result c e = ground arith

  pub handle_result_done :
      (params : CompileParams) (file : Bytes) (result : RunResult Reader) (c : Compiled)
      → (result.exit_code == 0) ≡ true
      → handle_result os fs load request_of bundled params file (ok result) c
        ≡ handle_reader os fs load request_of bundled params result.maybe_reader c
  unfolding handle_result
  handle_result_done params file result c e = ground arith

  pub handle_reader-diagnostics :
      (params : CompileParams) (reader : Option Reader) (c : Compiled)
      → (handle_reader os fs load request_of bundled params reader c).diagnostic_map
        ≡ c.diagnostic_map
  unfolding handle_reader
  handle_reader-diagnostics params none c = refl
  handle_reader-diagnostics params (some reader) c = refl

  handle_result-OnlyFor :
      (params : CompileParams) (file : Bytes) (r : Result (RunResult Reader)) (c : Compiled)
      → OnlyFor file
          (handle_result os fs load request_of bundled params file r (cleared c)).diagnostic_map
  handle_result-OnlyFor params file thrown c = unfold handle_result in empty-OnlyFor file
  handle_result-OnlyFor params file (ok result) c = elim (Bool-cases (result.exit_code == 0)) [
    | inl e ↦
        rw
          (
            handle_result_done params file result (cleared c) e,
            handle_reader-diagnostics params result.maybe_reader (cleared c),
          )
          (empty-OnlyFor file)
    | inr e ↦
        rw (handle_result_failed params file result (cleared c) e)
          (parse-OnlyFor file result.error_text)
  ]

  run_command-OnlyFor :
      (params : CompileParams) (command : Option Bytes) (c : Compiled)
      → OnlyFor
          (compiled_file params)
          (run_command os fs load request_of bundled params command (cleared c)).diagnostic_map
  unfolding run_command
  run_command-OnlyFor params none c = empty-OnlyFor (compiled_file params)
  run_command-OnlyFor params (some command) c =
      handle_result-OnlyFor params (compiled_file params) (compile_run params command) c

  pub compile_compatible :
      (params : CompileParams) (m : CompilationManager) (c : Compiled)
      → (check_capnp_version_compatible os fs load request_of bundled params.compiler_path m).0
        ≡ true
      → (compile os fs load request_of bundled params (m, c)).1
        ≡ run_command os fs load request_of bundled params
            (build_command bundled params)
            (cleared c)
  unfolding compile compile_checked
  compile_compatible params m c e = ground arith

  pub compile_incompatible :
      (params : CompileParams) (m : CompilationManager) (c : Compiled)
      → (check_capnp_version_compatible os fs load request_of bundled params.compiler_path m).0
        ≡ false
      → (compile os fs load request_of bundled params (m, c)).1 ≡ c
  unfolding compile compile_checked
  compile_incompatible params m c e = ground arith

  -- Behind a check that the version is compatible, `compile` leaves diagnostics for the file that it
  -- compiled and for no other, and all of them are reports of the compiler.
  pub compile-OnlyFor :
      (params : CompileParams) (m : CompilationManager) (c : Compiled)
      → (check_capnp_version_compatible os fs load request_of bundled params.compiler_path m).0
        ≡ true
      → OnlyFor
          (compiled_file params)
          (compile os fs load request_of bundled params (m, c)).1.diagnostic_map
  compile-OnlyFor params m c e =
      rw (compile_compatible params m c e)
        (run_command-OnlyFor params (build_command bundled params) c)
