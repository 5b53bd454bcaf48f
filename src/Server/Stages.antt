-- ===== src/Server/Stages.antt =====
-- A task that has the next turns for itself: what each stage of its job comes to.
use capnp_ls.Prelude.{
  ℕ, zero, suc, [], ◌++◌, Bool, true, false, Option, none, some, Bytes, bytes, Result, thrown, ◌≡◌,
  refl,
}
use capnp_ls.SubprocessRunner.{RunResult, run}
use capnp_ls.CompilationManager.{
  strip_working_dir, build_command, check_result, handle_result, run_command, compile_checked,
}
use capnp_ls.LspMessageHandler.Messages.{respond}
use capnp_ls.LspMessageHandler.Handlers.{Handler, World, answer, publish}
use capnp_ls.Server.Tasks.{
  Stage, checking, checked, running, compiled, Job, Reply, Turn, params_now, at_stage, begin_run,
  check_found, turn_job, turn_reply, turn_parts, turn,
}

module _ {Reader : Type 0} (world : World Reader) where
  open world use {os, fs, load, request_of, bundled, mismatch}

  -- What the process gives that a job waits for.
  abbrev pub result_at : Stage → Job → Result (RunResult Reader)
  result_at checking job = run os (record {
    command = job.compiler_path ++ bytes " --version";
    working_dir = bytes ".";
    is_capnp_message_output = false;
  })
  result_at (checked compatible) job = thrown
  result_at (running command) job =
      run os (record {
        command = command;
        working_dir = job.working_dir;
        is_capnp_message_output = true;
      })
  result_at compiled job = thrown

  abbrev pub result_for : Option Job → Result (RunResult Reader)
  result_for none = thrown
  result_for (some job) = result_at job.stage job

  -- Turns of one task, and of nothing else.
  unfoldable pub alone : ℕ → Turn → Turn
  alone zero t = t
  alone (suc n) (h, none) = (h, none)
  alone (suc n) (h, some task) = alone n (turn world (result_for task.job) task h)

  -- A reply that is still to be written.
  abbrev pub replied : Option Reply → Handler → Handler
  replied none h = h
  replied (some reply) h = respond world (some reply.request_id) (answer h reply.response)

  pub alone_reply :
      (n : ℕ) (reply : Option Reply) (h : Handler)
      → alone (suc n) (h, some (record { job = none; reply = reply })) ≡ (replied reply h, none)
  unfolding alone turn_parts turn_reply
  alone_reply zero none h = refl
  alone_reply (suc n) none h = refl
  alone_reply zero (some reply) h = refl
  alone_reply (suc n) (some reply) h = refl

  abbrev pub published : Job → Handler → Handler
  published job h = publish world job.path h (h.manager, h.compiled)

  pub alone_compiled :
      (n : ℕ) (job : Job) (reply : Option Reply) (h : Handler)
      → alone (suc (suc n)) (h, at_stage compiled job reply)
        ≡ (replied reply (published job h), none)
  unfolding alone turn_parts turn_job
  alone_compiled n job reply h = alone_reply n reply (published job h)

  abbrev with_result : Job → Bytes → Handler → Handler
  with_result job command h = record h {
    compiled =
        handle_result os fs load request_of bundled (params_now job h)
          (strip_working_dir job.working_dir job.path) (result_at (running command) job) h.compiled;
  }

  pub alone_running :
      (n : ℕ) (command : Bytes) (job : Job) (reply : Option Reply) (h : Handler)
      → alone (suc (suc (suc n))) (h, at_stage (running command) job reply)
        ≡ (replied reply (published job (with_result job command h)), none)
  unfolding alone turn_parts turn_job
  alone_running n command job reply h = alone_compiled n job reply (with_result job command h)

  -- The handler with what `compile_checked` makes of its maps.
  abbrev pub with_checked : Job → Bool → Handler → Handler
  with_checked job compatible h = record h {
    compiled =
        compile_checked os fs load request_of bundled (params_now job h) compatible h.compiled;
  }

  alone_command :
      (n : ℕ) (command : Option Bytes) (job : Job) (reply : Option Reply) (h : Handler)
      → alone (suc (suc (suc n))) (h, at_stage (begin_run command) job reply) ≡ (
        replied reply (
            published job (record h {
              compiled =
                  run_command os fs load request_of bundled (params_now job h) command h.compiled;
            })),
        none,
      )
  unfolding begin_run run_command
  alone_command n none job reply h = alone_compiled (suc n) job reply h
  alone_command n (some command) job reply h = alone_running n command job reply h

  pub alone_checked :
      (n : ℕ) (compatible : Bool) (job : Job) (reply : Option Reply) (h : Handler)
      → alone (suc (suc (suc (suc n)))) (h, at_stage (checked compatible) job reply)
        ≡ (replied reply (published job (with_checked job compatible h)), none)
  unfolding alone turn_parts turn_job compile_checked
  alone_checked n false job reply h = alone_compiled (suc n) job reply h
  alone_checked n true job reply h =
      alone_command n (build_command bundled (params_now job h)) job reply
        (record h { compiled = record h.compiled { diagnostic_map = [] } })

  pub alone_checking :
      (n : ℕ) (job : Job) (reply : Option Reply) (h : Handler)
      → let compatible = check_result os fs load request_of bundled (result_at checking job) in
        alone (suc (suc (suc (suc (suc n))))) (h, at_stage checking job reply) ≡ (
          replied reply (published job (with_checked job compatible (check_found compatible h))),
          none,
        )
  unfolding alone turn_parts turn_job
  alone_checking n job reply h =
      alone_checked n (check_result os fs load request_of bundled (result_at checking job)) job
        reply (check_found (check_result os fs load request_of bundled (result_at checking job)) h)
