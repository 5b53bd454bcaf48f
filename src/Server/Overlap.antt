-- ===== src/Server/Overlap.antt =====
-- Two compilations at once: they share `diagnosticMap`, and the one that ends first publishes what
-- the other found.
use capnp_ls.Prelude.{
  ◌==◌, [], ◌∷◌, ◌++◌, true, false, Option, none, some, Bytes, Result, ok, find, bytes_key, ◌≡◌,
  ◌≢◌, refl, ap, ◌∙◌, subst,
}
use capnp_ls.SubprocessRunner.{RunResult}
use capnp_ls.CompileErrorParser.{DiagnosticMap, parse}
use capnp_ls.CompilationManager.{strip_working_dir, build_command}
use capnp_ls.CompilationManager.Compile.{
  OnlyFor, parse-OnlyFor, handle_result_failed, handle_result_done, handle_reader-diagnostics,
}
use capnp_ls.LspMessageHandler.Publish.{Output, notifications, publish_diagnostics}
use capnp_ls.LspMessageHandler.Handlers.{Handler, World, publish}
use capnp_ls.Server.Tasks.{
  Stage, checked, running, compiled, Job, Reply, Task, begin_run, params_now, at_stage, turn_job,
  turn_parts, turn,
}
use capnp_ls.Server.Loop.{Server, Reach}
use capnp_ls.Server.Runs.{Holds, Holds_here, Holds_turn}
use capnp_ls.Server.Induction.{cleared, resulted}

abbrev pub waits : Stage → Job → Option Reply → Task
waits stage job reply = record { job = some (record job { stage = stage }); reply = reply }

abbrev pub job_file : Job → Bytes
job_file job = strip_working_dir job.working_dir job.path

-- With diagnostics in the map, the file that was compiled is not asked for.
publish_diagnostics-found :
    (output : Output) (workspace file : Bytes) (m : DiagnosticMap)
    → m ≢ []
    → publish_diagnostics output workspace file m ≡ notifications output workspace m
unfolding publish_diagnostics
publish_diagnostics-found output workspace file [] ne = elim (ne refl) [ ]
publish_diagnostics-found output workspace file (entry ∷ m) ne = refl

module _ {Reader : Type 0} (world : World Reader) where
  open world use {os, fs, load, request_of, bundled, output}

  run_turn :
      (r : Result (RunResult Reader)) (job : Job) (reply : Option Reply) (h : Handler)
      (command : Bytes)
      → build_command bundled (params_now job h) ≡ some command
      → turn world r (waits (checked true) job reply) h
        ≡ (cleared world h, some (waits (running command) job reply))
  unfolding turn_parts turn_job begin_run
  run_turn r job reply h command e = ap (λ c. (cleared world h, at_stage (begin_run c) job reply)) e

  result_turn :
      (r : Result (RunResult Reader)) (job : Job) (reply : Option Reply) (h : Handler)
      (command : Bytes)
      → turn world r (waits (running command) job reply) h
        ≡ (resulted world job r h, some (waits compiled job reply))
  unfolding turn_parts turn_job
  result_turn r job reply h command = refl

  turn-publish :
      (r : Result (RunResult Reader)) (job : Job) (reply : Option Reply) (h : Handler)
      → turn world r (waits compiled job reply) h ≡ (
        publish world job.path h (h.manager, h.compiled),
        some (record { job = none; reply = reply }),
      )
  unfolding turn_parts turn_job
  turn-publish r job reply h = refl

  abbrev mixed : (p q : Job) (good bad : RunResult Reader) (h : Handler) → Handler
  mixed p q good bad h = resulted world p (ok good) (resulted world q (ok bad) (cleared world h))

  mixed-diagnostics :
      (p q : Job) (good bad : RunResult Reader) (h : Handler)
      → (good.exit_code == 0) ≡ true
      → (bad.exit_code == 0) ≡ false
      → (mixed p q good bad h).compiled.diagnostic_map ≡ (parse (job_file q) bad.error_text []).1
  mixed-diagnostics p q good bad h g b =
      let failed : Handler = resulted world q (ok bad) (cleared world h) in
      ap (λ c. c.diagnostic_map)
        (handle_result_done os fs load request_of bundled (params_now p failed) (job_file p) good
          failed.compiled g)
      ∙ handle_reader-diagnostics os fs load request_of bundled (params_now p failed)
          good.maybe_reader failed.compiled
      ∙ ap (λ c. c.diagnostic_map)
          (handle_result_failed os fs load request_of bundled (params_now q h) (job_file q) bad
            (cleared world h).compiled b)

  published_by :
      (p q : Job) (good bad : RunResult Reader) (h : Handler) (m : DiagnosticMap)
      → (mixed p q good bad h).compiled.diagnostic_map ≡ m
      → m ≢ []
      → let last = mixed p q good bad h in
        (publish world p.path last (last.manager, last.compiled)).written
        ≡ h.written ++ notifications output h.config.workspace_path m
  unfolding publish
  published_by p q good bad h m e ne =
      ap (λ n. h.written ++ publish_diagnostics output h.config.workspace_path p.path n) e
      ∙ ap (λ ms. h.written ++ ms)
          (publish_diagnostics-found output h.config.workspace_path p.path m ne)

  -- Where nothing else waits and `run` has not returned, two compilations of files with different
  -- names that wait to run the commands that they have can come to this: the first ends with exit
  -- code 0, the other with another and with reports that are found, and what the first publishes
  -- are the reports of the other. Nothing is written about the file of the first, which has no
  -- diagnostics in the map.
  pub Reach-mixed :
      {s : Server} (p q : Job) (p_reply q_reply : Option Reply) (p_command q_command : Bytes)
      (good bad : RunResult Reader)
      → s.exited ≡ false
      → s.tasks ≡ waits (checked true) p p_reply ∷ waits (checked true) q q_reply ∷ []
      → build_command bundled (params_now p s.handler) ≡ some p_command
      → build_command bundled (params_now q s.handler) ≡ some q_command
      → (good.exit_code == 0) ≡ true
      → (bad.exit_code == 0) ≡ false
      → let found = (parse (job_file q) bad.error_text []).1 in
        found ≢ []
        → job_file p ≢ job_file q
        → OnlyFor (job_file q) found
          × (find (job_file p) found ≡ none)
          × (t : Server) × Reach world s t
          × (t.tasks ≡ record { job = none; reply = p_reply } ∷ waits compiled q q_reply ∷ [])
          × (t.handler.written
              ≡ s.handler.written ++ notifications output s.handler.config.workspace_path found)
  Reach-mixed {s = s} p q p_reply q_reply p_command q_command good bad goes_on tasks p_runs q_runs g
        b ne other =
      let h : Handler = s.handler in
      let h1 : Handler = cleared world h in
      let h2 : Handler = resulted world q (ok bad) h1 in
      let h3 : Handler = resulted world p (ok good) h2 in
      let only = parse-OnlyFor (job_file q) bad.error_text in
      let began =
        Holds_turn world [] (waits (checked true) q q_reply ∷ []) _ (ok good)
          (run_turn (ok good) p p_reply h p_command p_runs)
          (subst (Holds world s h) tasks (Holds_here world s goes_on)) in
      let ran =
        Holds_turn world (waits (running p_command) p p_reply ∷ []) [] _ (ok good)
          (run_turn (ok good) q q_reply h1 q_command q_runs) began in
      let failed =
        Holds_turn world (waits (running p_command) p p_reply ∷ []) [] _ (ok bad)
          (result_turn (ok bad) q q_reply h1 q_command) ran in
      let done =
        Holds_turn world [] (waits compiled q q_reply ∷ []) _ (ok good)
          (result_turn (ok good) p p_reply h2 p_command) failed in
      let last =
        Holds_turn world [] (waits compiled q q_reply ∷ []) _ (ok good)
          (turn-publish (ok good) p p_reply h3) done in
      (
        only,
        only.others (job_file p) other,
        last.server,
        last.reached,
        last.tasks_are,
        ap (λ u. u.written) last.handler_is
            ∙ published_by p q good bad h _ (mixed-diagnostics p q good bad h g b) ne,
      )
