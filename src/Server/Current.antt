-- ===== src/Server/Current.antt =====
-- The strings that a waiting compilation refers to: `CompileParams` holds pointers into the handler's
-- configuration, and a job copies of what they point to. The two agree as long as no message changes
-- the configuration; behind a second initialize the pointers are left to freed strings.
use capnp_ls.Prelude.{
  ◌+◌, [], ◌∷◌, ◌++◌, true, false, Bool-cases, Option, none, some, Option-cases, Bytes, List, drop,
  strstr, Result, ok, thrown, Result-cases, ◌≡◌, refl, sym, subst, inl, inr,
}
use capnp_ls.LspTypes.{
  LspMethod, did_open, did_save, try_parse_lsp_method, lsp_header_delimiter,
  lsp_header_delimiter_size,
}
use capnp_ls.SubprocessRunner.{RunResult}
use capnp_ls.LspMessageHandler.Json.{JsonValue, Ran, get_object}
use capnp_ls.LspMessageHandler.Initialize.{Config}
use capnp_ls.LspMessageHandler.Messages.{Message, response_value, read_message}
use capnp_ls.LspMessageHandler.Handlers.{
  compiles, Handler, World, answer, handle_shutdown, publish, saved_uri,
}
use capnp_ls.LspMessageHandler.Induction.{respond_thrown, respond_written}
use capnp_ls.Server.Tasks.{
  Stage, checking, checked, running, compiled, Job, Reply, Task, Turn, begin_compile, begin_found,
  begin_did_save, begin_did_open, begin_dispatch, begin_read, begin_decoded, begin_message,
  turn_job, turn_reply, turn_parts, turn,
}
use capnp_ls.Server.Begins.{
  begin_schema, begin_other, save_thrown, save_read, opened, open_thrown, open_read,
  begin_read_thrown, begin_read_ok, begin_no_header, begin_header,
}
use capnp_ls.Server.Loop.{
  Server, pending, added, turned, logged, logs, signalled, left, Step, receives, turns, interrupted,
  returns,
}

-- The job has the strings of the configuration.
abbrev pub IsCurrent : Config → Option Job → Type 0
IsCurrent config none = Unit
IsCurrent config (some job) =
    (job.compiler_path ≡ config.compiler_path) × (job.working_dir ≡ config.workspace_path)

abbrev pub AllCurrent : Config → List Task → Type 0
AllCurrent config [] = Unit
AllCurrent config (task ∷ tasks) = IsCurrent config task.job × AllCurrent config tasks

AllCurrent-append :
    (config : Config) (xs ys : List Task)
    → AllCurrent config xs
    → AllCurrent config ys
    → AllCurrent config (xs ++ ys)
AllCurrent-append config [] ys a b = b
AllCurrent-append config (x ∷ xs) ys a b = (a.0, AllCurrent-append config xs ys a.1 b)

AllCurrent-split :
    (config : Config) (xs ys : List Task)
    → AllCurrent config (xs ++ ys)
    → AllCurrent config xs × AllCurrent config ys
AllCurrent-split config [] ys a = (tt, a)
AllCurrent-split config (x ∷ xs) ys a =
    let (b, c) = AllCurrent-split config xs ys a.1 in ((a.0, b), c)

abbrev LeavesCurrent : Turn → Type 0
LeavesCurrent t = AllCurrent t.0.config (pending t.1)

module _ {Reader : Type 0} (world : World Reader) where
  open world use {mismatch, output}

  compile-IsCurrent : (uri : Bytes) (h : Handler) → IsCurrent h.config (begin_compile world uri h)
  compile-IsCurrent uri h = elim (Bool-cases (compiles world uri h)) [
    | inl e ↦ rw (begin_schema world uri h e) (refl, refl)
    | inr e ↦ rw (begin_other world uri h e) tt
  ]

  found-IsCurrent :
      (r : Result (Option Bytes)) (h : Handler) → IsCurrent h.config (begin_found world r h)
  unfolding begin_found
  found-IsCurrent thrown h = tt
  found-IsCurrent (ok none) h = tt
  found-IsCurrent (ok (some uri)) h = compile-IsCurrent uri h

  save-IsCurrent :
      (params : JsonValue) (h : Handler) → IsCurrent h.config (begin_did_save world params h)
  save-IsCurrent params h = elim (Result-cases (get_object mismatch params)) [
    | inl e ↦ rw (save_thrown world params h e).0 tt
    | inr (members, e) ↦
        rw (save_read world params members h e).0 (found-IsCurrent (saved_uri world members) h)
  ]

  open-IsCurrent :
      (params : JsonValue) (h : Handler) → IsCurrent h.config (begin_did_open world params h)
  open-IsCurrent params h = elim (Result-cases (opened world params).outcome) [
    | inl e ↦ rw (open_thrown world params h e).0 tt
    | inr (u, e) ↦
        rw (open_read world params u h e).0 (compile-IsCurrent (opened world params).state h)
  ]

  dispatch-IsCurrent :
      (method : Option LspMethod) (params : JsonValue) (h : Handler)
      → let begun = begin_dispatch world method params h in IsCurrent begun.handler.config begun.job
  unfolding begin_dispatch
  dispatch-IsCurrent (some did_open) params h = open-IsCurrent params h
  dispatch-IsCurrent (some did_save) params h = save-IsCurrent params h
  dispatch-IsCurrent _ params h = tt

  read-AllCurrent : (m : Ran Message) (h : Handler) → LeavesCurrent (begin_read world m h)
  read-AllCurrent m h = elim (Result-cases m.outcome) [
    | inl e ↦ rw (begin_read_thrown world m h e).0 tt
    | inr (u, e) ↦
        rw (begin_read_ok world m u h e).0
          (dispatch-IsCurrent (try_parse_lsp_method m.state.method) m.state.params h, tt)
  ]

  decoded-AllCurrent :
      (r : Result JsonValue) (h : Handler) → LeavesCurrent (begin_decoded world r h)
  unfolding begin_decoded
  decoded-AllCurrent thrown h = tt
  decoded-AllCurrent (ok root) h = read-AllCurrent (read_message world root) h

  message-AllCurrent :
      (message : Option Bytes) (h : Handler) → LeavesCurrent (begin_message world message h)
  message-AllCurrent none h = unfold begin_message in tt
  message-AllCurrent (some message) h = elim (Option-cases (strstr message lsp_header_delimiter)) [
    | inl e ↦ rw (begin_no_header world message h e).0 tt
    | inr (header_end, e) ↦ rw (begin_header world message header_end h e).0 (
        decoded-AllCurrent (world.decode (drop (header_end + lsp_header_delimiter_size) message)) h)
  ]

  -- A turn leaves the configuration, and its job the strings that it has.
  abbrev KeepsCurrent : Handler → Turn → Type 0
  KeepsCurrent h t = (t.0.config ≡ h.config) × AllCurrent h.config (pending t.1)

  job-AllCurrent :
      (r : Result (RunResult Reader)) (stage : Stage) (job : Job) (reply : Option Reply)
      (h : Handler)
      → IsCurrent h.config (some job)
      → KeepsCurrent h (turn_job world r stage job reply h)
  unfolding turn_job publish
  job-AllCurrent r checking job reply h i = (refl, (i, tt))
  job-AllCurrent r (checked false) job reply h i = (refl, (i, tt))
  job-AllCurrent r (checked true) job reply h i = (refl, (i, tt))
  job-AllCurrent r (running command) job reply h i = (refl, (i, tt))
  job-AllCurrent r compiled job reply h i = (refl, (tt, tt))

  reply-AllCurrent :
      (reply : Option Reply) (h : Handler) → KeepsCurrent h (turn_reply world reply h)
  unfolding turn_reply
  reply-AllCurrent none h = (refl, tt)
  reply-AllCurrent (some reply) h =
      elim (Result-cases (output.encode (response_value reply.request_id reply.response))) [
        | inl e ↦ rw (respond_thrown world reply.request_id (answer h reply.response) e) (refl, tt)
        | inr (body, e) ↦
            rw (respond_written world reply.request_id (answer h reply.response) body e) (refl, tt)
      ]

  parts-AllCurrent :
      (r : Result (RunResult Reader)) (job : Option Job) (reply : Option Reply) (h : Handler)
      → IsCurrent h.config job
      → KeepsCurrent h (turn_parts world r job reply h)
  unfolding turn_parts
  parts-AllCurrent r none reply h i = reply-AllCurrent reply h
  parts-AllCurrent r (some job) reply h i = job-AllCurrent r job.stage job reply h i

  -- Runs in which no message changes the configuration.
  pub data Steady (s : Server) : Server → Type 0 where
    stays : Steady s s
    goes :
        {t u : Server}
        → Steady s t
        → Step world t u
        → u.handler.config ≡ t.handler.config
        → Steady s u

  Step-AllCurrent :
      {s t : Server}
      → Step world s t
      → t.handler.config ≡ s.handler.config
      → AllCurrent s.handler.config s.tasks
      → AllCurrent t.handler.config t.tasks
  unfolding added turned logged signalled left handle_shutdown
  Step-AllCurrent {s = s} (receives message e) same_config all =
      let t = begin_message world message s.handler in
      AllCurrent-append t.0.config s.tasks (pending t.1)
        (subst (λ c. AllCurrent c s.tasks) (sym same_config) all)
        (message-AllCurrent message s.handler)
  Step-AllCurrent {s = s} (turns before after task r e f) same_config all =
      let (kept_before, kept) =
        AllCurrent-split s.handler.config before (task ∷ after)
          (subst (AllCurrent s.handler.config) f all) in
      let (same, kept_task) = parts-AllCurrent r task.job task.reply s.handler kept.0 in
      let now = (turn world r task s.handler).1 in
      subst (λ c. AllCurrent c (before ++ (pending now ++ after))) (sym same)
        (AllCurrent-append s.handler.config before (pending now ++ after) kept_before
          (AllCurrent-append s.handler.config (pending now) after kept_task kept.1))
  Step-AllCurrent (logs severity file line message text e f) same_config all = all
  Step-AllCurrent (interrupted e) same_config all = all
  Step-AllCurrent (returns e f) same_config all = tt

  -- In a run in which no step changes the configuration, from a state in which every waiting
  -- compilation has the configuration's compiler path and workspace, as one with no task, every
  -- compilation that waits has them, in whatever order messages, turns, log lines and signals
  -- come.
  pub Steady-AllCurrent :
      {s t : Server}
      → AllCurrent s.handler.config s.tasks
      → Steady s t
      → AllCurrent t.handler.config t.tasks
  Steady-AllCurrent all stays = all
  Steady-AllCurrent all (goes steady step same) =
      Step-AllCurrent step same (Steady-AllCurrent all steady)
