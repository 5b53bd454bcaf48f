-- ===== src/Server/Induction.antt =====
-- One rule for all that the event loop keeps of the handler: what its seven kinds of effects keep.
use capnp_ls.Prelude.{
  subst, ◌++◌, ◌∷◌, [], ◌+◌, Bool, true, false, Option, none, some, Option-cases, Bytes, drop,
  strstr, Result, ok, thrown, Result-cases, ◌≡◌, inl, inr,
}
use capnp_ls.LspTypes.{
  LspMethod, initialize, shutdown, formatting, try_parse_lsp_method, lsp_header_delimiter,
  lsp_header_delimiter_size,
}
use capnp_ls.SubprocessRunner.{RunResult}
use capnp_ls.CompilationManager.{strip_working_dir, check_result, handle_result}
use capnp_ls.LspMessageHandler.Json.{JsonValue, Ran}
use capnp_ls.LspMessageHandler.Messages.{Message, response_value, read_message}
use capnp_ls.LspMessageHandler.Handlers.{
  handle_formatting_lem, Handler, World, answer, handle_shutdown, handle_initialize, publish,
}
use capnp_ls.LspMessageHandler.Induction.{wrote, respond_thrown, respond_written}
use capnp_ls.LspMessageHandler.Schema.{is_server_message}
use capnp_ls.LspMessageHandler.Conforming.{response-is_server_message, log-is_server_message}
use capnp_ls.LspLogger.{log_notification}
use capnp_ls.LspLogger.Levels.{log_message-ok}
use capnp_ls.Server.Tasks.{
  Stage, checking, checked, running, compiled, Job, Reply, begin_dispatch, begin_read,
  begin_decoded, begin_message, params_now, check_found, turn_job, turn_reply, turn_parts,
}
use capnp_ls.Server.Begins.{begin_read_thrown, begin_read_ok, begin_no_header, begin_header}
use capnp_ls.Server.Loop.{
  Server, added, turned, logged, logs, signalled, left, Step, receives, turns, interrupted, returns,
  Reach, here, next,
}

module _ {Reader : Type 0} (world : World Reader) where
  open world use {os, fs, load, request_of, bundled, mismatch, output}

  abbrev pub cleared : Handler → Handler
  cleared h = record h { compiled = record h.compiled { diagnostic_map = [] } }

  abbrev pub resulted : Job → Result (RunResult Reader) → Handler → Handler
  resulted job r h = record h {
    compiled =
        handle_result os fs load request_of bundled (params_now job h)
          (strip_working_dir job.working_dir job.path) r h.compiled;
  }

  -- What keeps the state keeps `Inv`, but for the responses and the log.
  pub record KeepsState (Inv : Handler → Type 0) : Type 0 where
    pub shuts : (h : Handler) → Inv h → Inv (handle_shutdown h)
    pub configures :
        (params : JsonValue) (h : Handler) → Inv h → Inv (handle_initialize world params h).handler
    pub checks : (compatible : Bool) (h : Handler) → Inv h → Inv (check_found compatible h)
    pub clears : (h : Handler) → Inv h → Inv (cleared h)
    pub results :
        (job : Job) (r : Result (RunResult Reader)) (h : Handler) → Inv h → Inv (resulted job r h)
    pub publishes :
        (path : Bytes) (h : Handler) → Inv h → Inv (publish world path h (h.manager, h.compiled))

  pub record Keeps (Inv : Handler → Type 0) : Type 0 where
    pub shuts : (h : Handler) → Inv h → Inv (handle_shutdown h)
    pub configures :
        (params : JsonValue) (h : Handler) → Inv h → Inv (handle_initialize world params h).handler
    pub checks : (compatible : Bool) (h : Handler) → Inv h → Inv (check_found compatible h)
    pub clears : (h : Handler) → Inv h → Inv (cleared h)
    pub results :
        (job : Job) (r : Result (RunResult Reader)) (h : Handler) → Inv h → Inv (resulted job r h)
    pub publishes :
        (path : Bytes) (h : Handler) → Inv h → Inv (publish world path h (h.manager, h.compiled))
    pub writes :
        (value : JsonValue) (body : Bytes) (h : Handler)
        → is_server_message value ≡ true
        → output.encode value ≡ ok body
        → Inv h
        → Inv (wrote world body h)

  pub state_of : {Inv : Handler → Type 0} → Keeps Inv → KeepsState Inv
  state_of k = record {
    shuts = k.shuts;
    configures = k.configures;
    checks = k.checks;
    clears = k.clears;
    results = k.results;
    publishes = k.publishes;
  }

  module _ (Inv : Handler → Type 0) (keeps : KeepsState Inv) where
    dispatch-Keeps :
        (method : Option LspMethod) (params : JsonValue) (h : Handler)
        → Inv h
        → Inv (begin_dispatch world method params h).handler
    unfolding begin_dispatch
    dispatch-Keeps (some initialize) params h i = keeps.configures params h i
    dispatch-Keeps (some shutdown) params h i = keeps.shuts h i
    dispatch-Keeps (some formatting) params h i = rw (handle_formatting_lem world params h) i
    dispatch-Keeps _ params h i = i

    read-Keeps : (m : Ran Message) (h : Handler) → Inv h → Inv (begin_read world m h).0
    read-Keeps m h i = elim (Result-cases m.outcome) [
      | inl e ↦ (let both = begin_read_thrown world m h e in rw both.0 i)
      | inr (u, e) ↦
          (let both = begin_read_ok world m u h e in
            rw both.0 (dispatch-Keeps (try_parse_lsp_method m.state.method) m.state.params h i))
    ]

    decoded-Keeps : (r : Result JsonValue) (h : Handler) → Inv h → Inv (begin_decoded world r h).0
    unfolding begin_decoded
    decoded-Keeps thrown h i = i
    decoded-Keeps (ok root) h i = read-Keeps (read_message world root) h i

    pub message-Keeps :
        (message : Option Bytes) (h : Handler) → Inv h → Inv (begin_message world message h).0
    message-Keeps none h i = unfold begin_message in keeps.shuts h i
    message-Keeps (some message) h i = elim (Option-cases (strstr message lsp_header_delimiter)) [
      | inl e ↦ (let both = begin_no_header world message h e in rw both.0 (keeps.shuts h i))
      | inr (header_end, e) ↦
          (let both = begin_header world message header_end h e in
            rw both.0 (
              decoded-Keeps (world.decode (drop (header_end + lsp_header_delimiter_size) message)) h
                i))
    ]

    pub job-Keeps :
        (r : Result (RunResult Reader)) (stage : Stage) (job : Job) (reply : Option Reply)
        (h : Handler)
        → Inv h
        → Inv (turn_job world r stage job reply h).0
    unfolding turn_job
    job-Keeps r checking job reply h i =
        keeps.checks (check_result os fs load request_of bundled r) h i
    job-Keeps r (checked false) job reply h i = i
    job-Keeps r (checked true) job reply h i = keeps.clears h i
    job-Keeps r (running command) job reply h i = keeps.results job r h i
    job-Keeps r compiled job reply h i = keeps.publishes job.path h i

  module _ (Inv : Handler → Type 0) (keeps : Keeps Inv) where
    reply-Keeps : (reply : Option Reply) (h : Handler) → Inv h → Inv (turn_reply world reply h).0
    unfolding turn_reply
    reply-Keeps none h i = i
    reply-Keeps (some reply) h i =
        elim (Result-cases (output.encode (response_value reply.request_id reply.response))) [
          | inl e ↦ rw (respond_thrown world reply.request_id (answer h reply.response) e) i
          | inr (body, e) ↦
              rw (respond_written world reply.request_id (answer h reply.response) body e) (
                keeps.writes (response_value reply.request_id reply.response) body h
                  (response-is_server_message reply.request_id reply.response) e i)
        ]

    parts-Keeps :
        (r : Result (RunResult Reader)) (job : Option Job) (reply : Option Reply) (h : Handler)
        → Inv h
        → Inv (turn_parts world r job reply h).0
    unfolding turn_parts
    parts-Keeps r none reply h i = reply-Keeps reply h i
    parts-Keeps r (some job) reply h i = job-Keeps Inv (state_of keeps) r job.stage job reply h i

    pub Step-Keeps : {s t : Server} → Step world s t → Inv s.handler → Inv t.handler
    unfolding added turned logged signalled left
    Step-Keeps {s} (receives message e) i = message-Keeps Inv (state_of keeps) message s.handler i
    Step-Keeps {s} (turns before after task r e f) i = parts-Keeps r task.job task.reply s.handler i
    Step-Keeps {s} (logs severity file line message text e f) i =
        let (full, body, g, same) = log_message-ok output severity file line message text f in
        subst (λ t. Inv (record s.handler { written = s.handler.written ++ (t ∷ []) })) same
          (keeps.writes (log_notification severity full) body s.handler
            (log-is_server_message severity full) g i)
    Step-Keeps {s} (interrupted e) i = keeps.shuts s.handler i
    Step-Keeps (returns e f) i = i

    -- What every effect keeps holds in every state that is reached.
    pub Reach-Keeps : {s t : Server} → Inv s.handler → Reach world s t → Inv t.handler
    Reach-Keeps i here = i
    Reach-Keeps i (next r st) = Step-Keeps st (Reach-Keeps i r)
