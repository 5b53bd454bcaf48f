-- ===== src/CompilationManager/Effects.antt =====
-- When `compile` changes the symbols.
use capnp_ls.Prelude.{
  ◌==◌, true, false, Option, none, some, List, Bytes, ◌≡◌, ◌⊎◌, inl, inr, refl, sym, ap, ◌∙◌, subst,
  arith, Bool-cases, Option-cases, Result-cases, Result, ok, thrown, ==_iff,
}
use capnp_ls.SubprocessRunner.{Processes, RunResult}
use capnp_ls.SymbolResolver.{Filesystem}
use capnp_ls.SymbolResolver.Resolve.{Request, Node, Symbols, resolve}
use capnp_ls.SymbolResolver.Locations.{IsValid, HasShortFiles, resolve-IsValid}
use capnp_ls.CompilationManager.{
  CompilationManager, CompileParams, Compiled, build_command, check_capnp_version_compatible,
  resolve_request, handle_reader, handle_result, run_command, compile,
}
use capnp_ls.CompilationManager.Compile.{
  compile_run, compiled_file, cleared, compile_compatible, compile_incompatible,
}

module _ {Reader : Type 0} (os : Processes Reader) (fs : Filesystem)
    (load : List Node → Result (Unit {0})) (request_of : Reader → Result Request)
    (bundled : Option Bytes) where
  -- A run of the compiler that ended with exit code 0 and left a request.
  pub record Succeeds (params : CompileParams) (request : Request) : Type 0 where
    pub command : Bytes
    pub result : RunResult Reader
    pub reader : Reader
    pub built : build_command bundled params ≡ some command
    pub ran : compile_run os fs load request_of bundled params command ≡ ok result
    pub exit_code : result.exit_code ≡ 0
    pub read : result.maybe_reader ≡ some reader
    pub decoded : request_of reader ≡ ok request

  abbrev pub ChangesOnlyBy : CompileParams → Symbols → Symbols → Type 0
  ChangesOnlyBy params before after =
      (after ≡ before)
      ⊎ ((request : Request) × Succeeds params request
          × (after ≡ (resolve fs params.import_paths params.working_dir load request before).1))

  handle_result_resolves :
      (params : CompileParams) (file : Bytes) (result : RunResult Reader) (reader : Reader)
      (request : Request) (c : Compiled)
      → (result.exit_code == 0) ≡ true
      → result.maybe_reader ≡ some reader
      → request_of reader ≡ ok request
      → (handle_result os fs load request_of bundled params file (ok result) c).symbols
        ≡ (resolve fs params.import_paths params.working_dir load request c.symbols).1
  unfolding handle_result handle_reader resolve_request
  handle_result_resolves params file result reader request c e f g = ground arith

  handle_result_keeps :
      (params : CompileParams) (file : Bytes) (result : RunResult Reader) (c : Compiled)
      → ((result.exit_code == 0) ≡ false)
        ⊎ (result.maybe_reader ≡ none)
        ⊎ ((reader : Reader) × (result.maybe_reader ≡ some reader) × (request_of reader ≡ thrown))
      → (handle_result os fs load request_of bundled params file (ok result) c).symbols ≡ c.symbols
  unfolding handle_result handle_reader resolve_request
  handle_result_keeps params file result c h = ground arith

  run_result-ChangesOnlyBy :
      (params : CompileParams) (command : Bytes) (result : RunResult Reader) (c : Compiled)
      → build_command bundled params ≡ some command
      → compile_run os fs load request_of bundled params command ≡ ok result
      → ChangesOnlyBy params c.symbols
          (handle_result os fs load request_of bundled params
            (compiled_file params)
            (ok result)
            (cleared c)).symbols
  run_result-ChangesOnlyBy params command result c b r =
      let file = compiled_file params in
      elim (Bool-cases (result.exit_code == 0)) [
        | inr e ↦ inl (handle_result_keeps params file result (cleared c) (inl e))
        | inl e ↦ elim (Option-cases result.maybe_reader) [
          | inl f ↦ inl (handle_result_keeps params file result (cleared c) (inr (inl f)))
          | inr (reader, f) ↦ elim (Result-cases (request_of reader)) [
            | inl g ↦
                inl (handle_result_keeps params file result (cleared c) (inr (inr (reader, f, g))))
            | inr (request, g) ↦ inr (
              request,
              record {
                command = command;
                result = result;
                reader = reader;
                built = b;
                ran = r;
                exit_code = (==_iff result.exit_code 0).0 e;
                read = f;
                decoded = g;
              },
              handle_result_resolves params file result reader request (cleared c) e f g,
            )
          ]
        ]
      ]

  run_thrown :
      (params : CompileParams) (command : Bytes) (c : Compiled)
      → compile_run os fs load request_of bundled params command ≡ thrown
      → run_command os fs load request_of bundled params (some command) c ≡ c
  unfolding run_command handle_result
  run_thrown params command c e = ground arith

  pub run_ok :
      (params : CompileParams) (command : Bytes) (result : RunResult Reader) (c : Compiled)
      → compile_run os fs load request_of bundled params command ≡ ok result
      → run_command os fs load request_of bundled params (some command) c
        ≡ handle_result os fs load request_of bundled params (compiled_file params) (ok result) c
  unfolding run_command
  run_ok params command result c e = ground arith

  pub run_none :
      (params : CompileParams) (c : Compiled)
      → run_command os fs load request_of bundled params none c ≡ c
  unfolding run_command
  run_none params c = refl

  run_command-ChangesOnlyBy :
      (params : CompileParams) (command : Option Bytes) (c : Compiled)
      → build_command bundled params ≡ command
      → ChangesOnlyBy params c.symbols
          (run_command os fs load request_of bundled params command (cleared c)).symbols
  run_command-ChangesOnlyBy params none c b =
      inl (ap (λ d. d.symbols) (run_none params (cleared c)))
  run_command-ChangesOnlyBy params (some command) c b =
      elim (Result-cases (compile_run os fs load request_of bundled params command)) [
        | inl e ↦ inl (ap (λ d. d.symbols) (run_thrown params command (cleared c) e))
        | inr (result, e) ↦
            rw (run_ok params command result (cleared c) e)
              (run_result-ChangesOnlyBy params command result c b e)
      ]

  -- A compilation leaves the symbols as they were, or it ran the compiler, which ended with exit
  -- code 0 and wrote a request, and the symbols are what `resolve` makes of them by this request.
  pub compile-ChangesOnlyBy :
      (params : CompileParams) (m : CompilationManager) (c : Compiled)
      → ChangesOnlyBy params c.symbols
          (compile os fs load request_of bundled params (m, c)).1.symbols
  compile-ChangesOnlyBy params m c =
      elim (Bool-cases
        (check_capnp_version_compatible os fs load request_of bundled params.compiler_path m).0) [
          | inl e ↦
              rw (compile_compatible os fs load request_of bundled params m c e)
                (run_command-ChangesOnlyBy params (build_command bundled params) c refl)
          | inr e ↦ inl (
              ap (λ d. d.symbols) (compile_incompatible os fs load request_of bundled params m c e))
        ]

  -- The symbols behind a compilation that succeeds.
  pub compile-Succeeds :
      (params : CompileParams) (m : CompilationManager) (c : Compiled) (request : Request)
      → (check_capnp_version_compatible os fs load request_of bundled params.compiler_path m).0
        ≡ true
      → Succeeds params request
      → (compile os fs load request_of bundled params (m, c)).1.symbols
        ≡ (resolve fs params.import_paths params.working_dir load request c.symbols).1
  compile-Succeeds params m c request e s =
      ap (λ d. d.symbols)
        (compile_compatible os fs load request_of bundled params m c e
          ∙ (ap (λ command. run_command os fs load request_of bundled params command (cleared c))
                s.built
              ∙ run_ok params s.command s.result (cleared c) s.ran))
      ∙ handle_result_resolves params (compiled_file params) s.result s.reader request (cleared c)
          ((==_iff s.result.exit_code 0).1 s.exit_code) s.read s.decoded

  -- Where no file is longer than 2^32 - 2 bytes, a compilation keeps every line and character of the
  -- symbols between 1 and 2^32 - 1.
  pub compile-IsValid :
      HasShortFiles fs
      → (params : CompileParams) (m : CompilationManager) (c : Compiled) → IsValid c.symbols
      → IsValid (compile os fs load request_of bundled params (m, c)).1.symbols
  compile-IsValid short params m c h = elim (compile-ChangesOnlyBy params m c) [
    | inl e ↦ subst IsValid (sym e) h
    | inr (request, s, e) ↦
        subst IsValid (sym e)
          (resolve-IsValid fs short params.import_paths params.working_dir load request c.symbols h)
  ]
