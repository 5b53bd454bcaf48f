-- ===== src/Server/Diagnostics.antt =====
-- The diagnostics that compilations leave, also one among others.
use capnp_ls.Prelude.{
  ◌==◌, true, false, Bool-cases, Bytes, Result, ok, thrown, find, bytes_key, same, same_iff, ◌≡◌,
  ◌≢◌, sym, ap, ◌∙◌, subst, inl, inr,
}
use capnp_ls.SubprocessRunner.{RunResult}
use capnp_ls.CompileErrorParser.{DiagnosticMap, parse}
use capnp_ls.CompileErrorParser.Lines.{AllReports, AllReports-append, held, parse_lem}
use capnp_ls.CompilationManager.{CompileParams, Compiled, handle_result}
use capnp_ls.CompilationManager.Compile.{
  handle_result_failed, handle_result_done, handle_reader-diagnostics,
}
use capnp_ls.LspMessageHandler.Handlers.{World, handle_initialize, publish}
use capnp_ls.Server.Induction.{Keeps}

-- All that the map holds are reports of the compiler: errors, at positions that fit uint32_t.
abbrev pub HasReports : DiagnosticMap → Type 0
HasReports m = (file : Bytes) → AllReports (held file m)

same_ne : (a b : Bytes) → same a b ≡ false → a ≢ b
same_ne a b e f = let both : true ≡ false = sym ((same_iff a b).1 f) ∙ e in cc

parse-HasReports :
    (file text : Bytes) (m : DiagnosticMap) → HasReports m → HasReports (parse file text m).1
parse-HasReports file text m h j =
    let (added, adds, status) = parse_lem file text m in
    elim (Bool-cases (same j file)) [
      | inl e ↦
          (let here : j ≡ file = (same_iff j file).0 e in
            rw here (
              subst AllReports (sym adds.own)
                (AllReports-append (held file m) added (h file) adds.reports)))
      | inr e ↦ rw (adds.others j (same_ne j file e)) (h j)
    ]

module _ {Reader : Type 0} (world : World Reader) where
  open world use {os, fs, load, request_of, bundled}

  result-HasReports :
      (params : CompileParams) (file : Bytes) (r : Result (RunResult Reader)) (c : Compiled)
      → HasReports c.diagnostic_map
      → HasReports (handle_result os fs load request_of bundled params file r c).diagnostic_map
  result-HasReports params file thrown c h = unfold handle_result in h
  result-HasReports params file (ok result) c h = elim (Bool-cases (result.exit_code == 0)) [
    | inl e ↦
        subst HasReports
          (sym (
            ap (λ d. d.diagnostic_map)
              (handle_result_done os fs load request_of bundled params file result c e)
            ∙ handle_reader-diagnostics os fs load request_of bundled params result.maybe_reader c))
          h
    | inr e ↦
        subst HasReports
          (sym (
            ap (λ d. d.diagnostic_map)
              (handle_result_failed os fs load request_of bundled params file result c e)))
          (parse-HasReports file result.error_text c.diagnostic_map h)
  ]

  pub keeps-HasReports : Keeps world (λ h. HasReports h.compiled.diagnostic_map)
  unfolding publish handle_initialize find
  keeps-HasReports = record {
    shuts = λ h i. i;
    configures = λ params h i. i;
    checks = λ compatible h i. i;
    clears = λ h i j. tt;
    results = λ job r h i. result-HasReports _ _ r h.compiled i;
    publishes = λ path h i. i;
    writes = λ value body h m e i. i;
  }
