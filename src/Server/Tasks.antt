-- ===== src/Server/Tasks.antt =====
-- A message as `handleMessage` begins it, up to its first wait, and what follows each wait of its
-- promise.
use capnp_ls.Prelude.{
  ◌+◌, ◌∷◌, [], Bool, true, false, ◌||◌, Option, none, some, Bytes, drop, strstr, if◌then◌else◌,
  Result, ok, thrown,
}
use capnp_ls.LspTypes.{
  LspMethod, initialize, shutdown, definition, did_open, did_save, formatting, try_parse_lsp_method,
  lsp_header_delimiter, lsp_header_delimiter_size,
}
use capnp_ls.Utils.{uri_to_path}
use capnp_ls.SubprocessRunner.{RunResult}
use capnp_ls.CompilationManager.{
  CompilationManager, CompileParams, strip_working_dir, build_command, check_result, handle_result,
}
use capnp_ls.LspMessageHandler.Json.{
  Double, JsonValue, null_value, get_object, Ran, with, each_field,
}
use capnp_ls.LspMessageHandler.Initialize.{initialize_response}
use capnp_ls.LspMessageHandler.Definition.{handle_definition}
use capnp_ls.LspMessageHandler.Messages.{Message, read_message, respond}
use capnp_ls.LspMessageHandler.Handlers.{
  compiles, Handler, World, answer, handle_shutdown, handle_initialize, handle_formatting,
  saved_uri, read_document, publish,
}

-- Where a compilation waits: for the version command, with the answer of the check at hand, for the
-- compiler, or with the promise of `compile` fulfilled.
pub data Stage : Type 0 where
  checking : Stage
  checked : Bool → Stage
  running : Bytes → Stage
  compiled : Stage

-- The parameters that `compile` copies; the import paths and the maps are references.
pub record Job : Type 0 where
  pub path : Bytes
  pub compiler_path : Bytes
  pub working_dir : Bytes
  pub stage : Stage

-- The response that is written once the promise of the handler is fulfilled.
pub record Reply : Type 0 where
  pub request_id : Double
  pub response : JsonValue

pub record Task : Type 0 where
  pub job : Option Job
  pub reply : Option Reply

-- A message that was begun: what it did at once, and what it waits for.
pub record Begun : Type 0 where
  pub handler : Handler
  pub job : Option Job
  pub response : JsonValue

abbrev pub begun : Handler → JsonValue → Begun
begun h response = record { handler = h; job = none; response = response }

abbrev pub Turn : Type 0
Turn = Handler × Option Task

-- `checkCapnpVersionCompatible` up to its first wait.
unfoldable pub begin_check : Bytes → CompilationManager → Stage
begin_check [] m = checked m.is_capnp_version_compatible
begin_check (c ∷ cs) m = if m.is_capnp_version_compatible then checked true else checking

abbrev pub reply_to : Option Double → JsonValue → Option Reply
reply_to none response = none
reply_to (some id) response = some (record { request_id = id; response = response })

-- The promise that `handleMessage` returns.
abbrev pub task_of : Option Double → Begun → Turn
task_of id b = (b.handler, some (record { job = b.job; reply = reply_to id b.response }))

-- The parameters as they are read now, the import paths from the handler.
abbrev pub params_now : Job → Handler → CompileParams
params_now job h = record {
  compiler_path = job.compiler_path;
  import_paths = h.config.import_paths;
  file_name = job.path;
  working_dir = job.working_dir;
}

abbrev pub at_stage : Stage → Job → Option Reply → Option Task
at_stage stage job reply =
    some (record { job = some (record job { stage = stage }); reply = reply })

-- The command that the job runs, if there is one.
unfoldable pub begin_run : Option Bytes → Stage
begin_run none = compiled
begin_run (some command) = running command

abbrev pub check_found : Bool → Handler → Handler
check_found compatible h = record h {
  manager = record {
    is_capnp_version_compatible = compatible || h.manager.is_capnp_version_compatible;
  };
}

module _ {Reader : Type 0} (world : World Reader) where
  open world use {os, fs, load, request_of, bundled, mismatch}

  unfoldable pub begin_compile : Bytes → Handler → Option Job
  unfolding compiles uri_to_path begin_check
  begin_compile uri h =
      if compiles world uri h
      then some (record {
        path = uri_to_path uri;
        compiler_path = h.config.compiler_path;
        working_dir = h.config.workspace_path;
        stage = begin_check h.config.compiler_path h.manager;
      })
      else none

  unfoldable pub begin_found : Result (Option Bytes) → Handler → Option Job
  begin_found thrown h = none
  begin_found (ok none) h = none
  begin_found (ok (some uri)) h = begin_compile uri h

  unfoldable pub begin_did_save : JsonValue → Handler → Option Job
  begin_did_save params h = elim (get_object mismatch params) [
    | thrown ↦ none
    | ok members ↦ begin_found (saved_uri world members) h
  ]

  unfoldable pub begin_did_open : JsonValue → Handler → Option Job
  begin_did_open params h =
      let opened =
        with (get_object mismatch params) []
          (λ members. each_field (read_document world) members []) in
      elim opened.outcome [ thrown ↦ none | ok u ↦ begin_compile opened.state h ]

  -- The switch. All but the compilations end at once.
  unfoldable pub begin_dispatch : Option LspMethod → JsonValue → Handler → Begun
  begin_dispatch (some initialize) params h =
      begun (handle_initialize world params h).handler initialize_response
  begin_dispatch (some shutdown) params h = begun (handle_shutdown h) null_value
  begin_dispatch (some definition) params h =
      begun h (handle_definition mismatch params h.compiled.symbols)
  begin_dispatch (some formatting) params h = begun (handle_formatting world params h) null_value
  begin_dispatch (some did_open) params h = record {
    handler = h;
    job = begin_did_open params h;
    response = null_value;
  }
  begin_dispatch (some did_save) params h = record {
    handler = h;
    job = begin_did_save params h;
    response = null_value;
  }
  begin_dispatch _ params h = begun h null_value

  unfoldable pub begin_read : Ran Message → Handler → Turn
  begin_read m h = elim m.outcome [
    | thrown ↦ (h, none)
    | ok u ↦
        task_of m.state.request_id
          (begin_dispatch (try_parse_lsp_method m.state.method) m.state.params h)
  ]

  unfoldable pub begin_decoded : Result JsonValue → Handler → Turn
  begin_decoded thrown h = (h, none)
  begin_decoded (ok root) h = begin_read (read_message world root) h

  -- `handleMessage` up to its first wait.
  unfoldable pub begin_message : Option Bytes → Handler → Turn
  begin_message none h = (handle_shutdown h, none)
  begin_message (some message) h = elim (strstr message lsp_header_delimiter) [
    | none ↦ (handle_shutdown h, none)
    | some header_end ↦
        begin_decoded (world.decode (drop (header_end + lsp_header_delimiter_size) message)) h
  ]

  -- The continuation of a job's wait; `r` is the result of the process that it waited for, if it did.
  unfoldable pub turn_job : Result (RunResult Reader) → Stage → Job → Option Reply → Handler → Turn
  turn_job r checking job reply h =
      let compatible = check_result os fs load request_of bundled r in
      (check_found compatible h, at_stage (checked compatible) job reply)
  turn_job r (checked false) job reply h = (h, at_stage compiled job reply)
  turn_job r (checked true) job reply h = (
    record h { compiled = record h.compiled { diagnostic_map = [] } },
    at_stage (begin_run (build_command bundled (params_now job h))) job reply,
  )
  turn_job r (running command) job reply h = (
    record h {
      compiled =
          handle_result os fs load request_of bundled (params_now job h)
            (strip_working_dir job.working_dir job.path) r h.compiled;
    },
    at_stage compiled job reply,
  )
  turn_job r compiled job reply h = (
    publish world job.path h (h.manager, h.compiled),
    some (record { job = none; reply = reply }),
  )

  -- The response is written, and the task ends.
  unfoldable pub turn_reply : Option Reply → Handler → Turn
  turn_reply none h = (h, none)
  turn_reply (some reply) h =
      (respond world (some reply.request_id) (answer h reply.response), none)

  unfoldable pub turn_parts : Result (RunResult Reader) → Option Job → Option Reply → Handler → Turn
  turn_parts r none reply h = turn_reply reply h
  turn_parts r (some job) reply h = turn_job r job.stage job reply h

  abbrev pub turn : Result (RunResult Reader) → Task → Handler → Turn
  turn r task h = turn_parts r task.job task.reply h
