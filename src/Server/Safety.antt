-- ===== src/Server/Safety.antt =====
-- What holds in every state that the event loop reaches, in whatever order messages, turns and
-- signals come.
use capnp_ls.Prelude.{
  ◌==◌, [], append-nil, Bool-cases, true, Option, none, some, Bytes, List, Result, ok, thrown, ◌≡◌,
  refl, sym, inl, inr,
}
use capnp_ls.SubprocessRunner.{RunResult}
use capnp_ls.SymbolResolver.Resolve.{Request, Symbols}
use capnp_ls.SymbolResolver.Locations.{IsValid, HasShortFiles, resolve-IsValid}
use capnp_ls.CompilationManager.{
  CompileParams, Compiled, resolve_request, handle_reader, handle_result,
}
use capnp_ls.CompilationManager.Compile.{handle_result_failed, handle_result_done}
use capnp_ls.LspMessageHandler.Handlers.{Handler, World, handle_initialize, publish}
use capnp_ls.LspMessageHandler.Invariants.{
  PrintsLengths, Writes, Writes-more, publish-AllFramed, message-AllFramed,
}
use capnp_ls.Server.Loop.{Server, Reach}
use capnp_ls.Server.Diagnostics.{HasReports, keeps-HasReports}
use capnp_ls.Server.Induction.{Keeps, Reach-Keeps}

-- The symbols count from one, and the diagnostics are reports of the compiler.
pub record IsSound (h : Handler) : Type 0 where
  pub symbols : IsValid h.compiled.symbols
  pub diagnostics : HasReports h.compiled.diagnostic_map

module _ {Reader : Type 0} (world : World Reader) where
  open world use {os, fs, load, request_of, bundled}

  module _ (short : HasShortFiles world.fs) where
    request-IsValid :
        (params : CompileParams) (r : Result Request) (s : Symbols)
        → IsValid s
        → IsValid (resolve_request os fs load request_of bundled params r s)
    unfolding resolve_request
    request-IsValid params thrown s i = i
    request-IsValid params (ok request) s i =
        resolve-IsValid fs short params.import_paths params.working_dir load request s i

    reader-IsValid :
        (params : CompileParams) (reader : Option Reader) (c : Compiled)
        → IsValid c.symbols
        → IsValid (handle_reader os fs load request_of bundled params reader c).symbols
    unfolding handle_reader
    reader-IsValid params none c i = i
    reader-IsValid params (some reader) c i = request-IsValid params (request_of reader) c.symbols i

    result-IsValid :
        (params : CompileParams) (file : Bytes) (r : Result (RunResult Reader)) (c : Compiled)
        → IsValid c.symbols
        → IsValid (handle_result os fs load request_of bundled params file r c).symbols
    result-IsValid params file thrown c i = unfold handle_result in i
    result-IsValid params file (ok result) c i = elim (Bool-cases (result.exit_code == 0)) [
      | inl e ↦
          rw (handle_result_done os fs load request_of bundled params file result c e)
            (reader-IsValid params result.maybe_reader c i)
      | inr e ↦ rw (handle_result_failed os fs load request_of bundled params file result c e) i
    ]

    keeps-IsValid : Keeps world (λ h. IsValid h.compiled.symbols)
    unfolding publish handle_initialize
    keeps-IsValid = record {
      shuts = λ h i. i;
      configures = λ params h i. i;
      checks = λ compatible h i. i;
      clears = λ h i. i;
      results = λ job r h i. result-IsValid _ _ r h.compiled i;
      publishes = λ path h i. i;
      writes = λ value body h m e i. i;
    }

  -- Where no file is longer than 2^32 - 2 bytes, the symbols count from one, and all diagnostics are
  -- errors at positions that fit uint32_t, this holds in every state that is reached, however
  -- compilations overlap and whatever the compiler's runs give.
  pub Reach-IsSound :
      HasShortFiles world.fs
      → {s t : Server} → IsSound s.handler
      → Reach world s t
      → IsSound t.handler
  Reach-IsSound short i r = record {
    symbols = Reach-Keeps world (λ h. IsValid h.compiled.symbols) (keeps-IsValid short) i.symbols r;
    diagnostics =
        Reach-Keeps world (λ h. HasReports h.compiled.diagnostic_map) (keeps-HasReports world)
          i.diagnostics r;
  }

  module _ (prints : PrintsLengths world.output) (before : List Bytes) where
    keeps-Writes : Keeps world (λ h. Writes before h.written)
    unfolding publish handle_initialize
    keeps-Writes = record {
      shuts = λ h i. i;
      configures = λ params h i. i;
      checks = λ compatible h i. i;
      clears = λ h i. i;
      results = λ job r h i. i;
      publishes = λ path h i.
          Writes-more world prints before h.written _ i
            (publish-AllFramed world.output prints h.config.workspace_path path _);
      writes = λ value body h m e i.
          Writes-more world prints before h.written _ i
            (message-AllFramed world.output prints value body e);
    }

  -- Where numbers are printed in decimal and encoded values are not longer than size_t counts,
  -- what is written is only added to, and by whole messages: a header with the length of the body,
  -- and the body, also where the handlers of several messages overlap and lines are logged between
  -- their turns.
  pub Reach-Writes :
      PrintsLengths world.output
      → {s t : Server} → Reach world s t
      → Writes s.handler.written t.handler.written
  Reach-Writes prints {s = s} r =
      Reach-Keeps world (λ h. Writes s.handler.written h.written)
        (keeps-Writes prints s.handler.written) ([], sym (append-nil s.handler.written), tt) r

  pub keeps-shut_down : Keeps world (λ h. h.shut_down ≡ true)
  unfolding publish handle_initialize
  keeps-shut_down = record {
    shuts = λ h i. refl;
    configures = λ params h i. i;
    checks = λ compatible h i. i;
    clears = λ h i. i;
    results = λ job r h i. i;
    publishes = λ path h i. i;
    writes = λ value body h m e i. i;
  }

  -- A server that was told to shut down stays so, whatever comes.
  pub Reach-shut_down :
      {s t : Server} → s.handler.shut_down ≡ true → Reach world s t → t.handler.shut_down ≡ true
  Reach-shut_down i r = Reach-Keeps world (λ h. h.shut_down ≡ true) keeps-shut_down i r
