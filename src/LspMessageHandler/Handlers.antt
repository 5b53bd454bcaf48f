-- ===== src/LspMessageHandler/Handlers.antt =====
-- The state of the handler, and the handlers that `handleMessage` dispatches to.
use capnp_ls.Prelude.{
  ◌&&◌, not, Bool, true, Option, none, some, Bytes, bytes, List, [], ◌++◌, ends_with, same,
  if◌then◌else◌, Result, ok, thrown, Result-cases, arith, ◌≡◌,
}
use capnp_ls.Utils.{uri_to_path}
use capnp_ls.SubprocessRunner.{Processes}
use capnp_ls.SymbolResolver.{Filesystem}
use capnp_ls.SymbolResolver.Resolve.{Node, Request}
use capnp_ls.CompilationManager.{CompilationManager, CompileParams, Compiled, check_throws, compile}
use capnp_ls.LspMessageHandler.Json.{
  JsonValue, JsonFields, no_fields, field_and, Mismatch, get_object, get_array, get_string,
  JsonValues, no_values, value_and, Ran, ended, with, each_field,
}
use capnp_ls.LspMessageHandler.Initialize.{Config, configure, initialize_response}
use capnp_ls.LspMessageHandler.Publish.{Output, publish_diagnostics}

-- The members of LspMessageHandler, the messages that were written, and whether the server was told
-- to shut down.
pub record Handler : Type 0 where
  pub config : Config
  pub compiled : Compiled
  pub manager : CompilationManager
  pub written : List Bytes
  pub shut_down : Bool

-- What is outside: processes, one file system that stays as it is, the schema loader, the decoding of
-- a request, the bundled compiler, kj's and the JSON codec's part.
pub record World (Reader : Type 0) : Type 1 where
  pub os : Processes Reader
  pub fs : Filesystem
  pub load : List Node → Result (Unit {0})
  pub request_of : Reader → Result Request
  pub bundled : Option Bytes
  pub mismatch : Mismatch
  pub output : Output
  -- JsonCodec::decodeRaw
  pub decode : Bytes → Result JsonValue

abbrev pub handle_shutdown : Handler → Handler
handle_shutdown h = record h { shut_down = true }

-- What a handler leaves, and its response.
pub record Answer : Type 0 where
  pub handler : Handler
  pub response : JsonValue

abbrev pub answer : Handler → JsonValue → Answer
answer h response = record { handler = h; response = response }

module _ {Reader : Type 0} (world : World Reader) where
  open world use {os, fs, load, request_of, bundled, mismatch, output}

  abbrev pub compile_params : Bytes → Config → CompileParams
  compile_params path config = record {
    compiler_path = config.compiler_path;
    import_paths = config.import_paths;
    file_name = path;
    working_dir = config.workspace_path;
  }

  -- Behind `compile`: its maps, and the notifications.
  unfoldable pub publish : Bytes → Handler → CompilationManager × Compiled → Handler
  unfolding publish_diagnostics
  publish path h (manager, compiled) = record h {
    compiled = compiled;
    manager = manager;
    written =
        h.written
        ++ publish_diagnostics output h.config.workspace_path path compiled.diagnostic_map;
  }

  -- `compile` throws; the handlers that call `compileCapnpFile` catch it.
  abbrev pub compile_throws : Handler → Bool
  compile_throws h = check_throws os fs load request_of bundled h.config.compiler_path h.manager

  -- The file is a schema, and its compilation begins.
  unfoldable pub compiles : Bytes → Handler → Bool
  unfolding check_throws uri_to_path ends_with
  compiles uri h = ends_with (bytes ".capnp") (uri_to_path uri) && not (compile_throws h)

  unfoldable pub compile_capnp_file : Bytes → Handler → Handler
  unfolding compiles publish compile uri_to_path
  compile_capnp_file uri h =
      let path = uri_to_path uri in
      if compiles uri h
      then publish path h (
          compile os fs load request_of bundled (compile_params path h.config)
            (h.manager, h.compiled))
      else h

  unfoldable pub compile_found : Result (Option Bytes) → Handler → Handler
  unfolding compile_capnp_file
  compile_found thrown h = h
  compile_found (ok none) h = h
  compile_found (ok (some uri)) h = compile_capnp_file uri h

  -- The loop over a document, which returns at its first "uri".
  unfoldable pub first_uri : JsonFields → Result (Option Bytes)
  unfolding get_string same
  first_uri no_fields = ok none
  first_uri (field_and name value fields) =
      let later = first_uri fields in
      if same name (bytes "uri")
      then (elim (get_string mismatch value) [ thrown ↦ thrown | ok uri ↦ ok (some uri) ])
      else later

  -- The result of a loop's body, and of what follows where it did not return.
  unfoldable pub or_later : Result (Option Bytes) → Result (Option Bytes) → Result (Option Bytes)
  or_later thrown later = thrown
  or_later (ok none) later = later
  or_later (ok (some uri)) later = ok (some uri)

  unfoldable pub uri_of_object : JsonValue → Result (Option Bytes)
  unfolding get_object first_uri
  uri_of_object value = elim (get_object mismatch value) [
    | thrown ↦ thrown
    | ok fields ↦ first_uri fields
  ]

  unfoldable pub saved_uri : JsonFields → Result (Option Bytes)
  unfolding or_later uri_of_object same
  saved_uri no_fields = ok none
  saved_uri (field_and name value fields) =
      let later = saved_uri fields in
      if same name (bytes "textDocument") then or_later (uri_of_object value) later else later

  unfoldable pub handle_did_save : JsonValue → Handler → Handler
  unfolding compile_found saved_uri get_object
  handle_did_save params h = elim (get_object mismatch params) [
    | thrown ↦ h
    | ok fields ↦ compile_found (saved_uri fields) h
  ]

  -- The loops over the changes, which return at the first "uri".
  unfoldable pub first_change : JsonValues → Result (Option Bytes)
  unfolding or_later uri_of_object
  first_change no_values = ok none
  first_change (value_and value values) = or_later (uri_of_object value) (first_change values)

  unfoldable pub changed_uri : JsonFields → Result (Option Bytes)
  unfolding or_later first_change get_array same
  changed_uri no_fields = ok none
  changed_uri (field_and name value fields) =
      let later = changed_uri fields in
      if same name (bytes "changes")
      then or_later
          (elim (get_array mismatch value) [ thrown ↦ thrown | ok values ↦ first_change values ])
          later
      else later

  -- `handleDidChangeWatchedFiles`, which `handleMessage` does not call.
  unfoldable pub handle_did_change_watched_files : JsonValue → Handler → Handler
  unfolding compile_found changed_uri get_object
  handle_did_change_watched_files params h = elim (get_object mismatch params) [
    | thrown ↦ h
    | ok fields ↦ compile_found (changed_uri fields) h
  ]

  -- The loop of `handleDidOpenTextDocument`: the last "uri" counts.
  unfoldable pub read_uri : Bytes → JsonValue → Bytes → Ran Bytes
  unfolding with get_string same
  read_uri name value uri =
      if same name (bytes "uri") then with (get_string mismatch value) uri ended else ended uri

  unfoldable pub read_document : Bytes → JsonValue → Bytes → Ran Bytes
  unfolding with get_object each_field read_uri same
  read_document name value uri =
      if same name (bytes "textDocument")
      then with (get_object mismatch value) uri (λ fields. each_field read_uri fields uri)
      else ended uri

  unfoldable pub handle_did_open_text_document : JsonValue → Handler → Handler
  unfolding with get_object each_field read_document compile_capnp_file
  handle_did_open_text_document params h =
      let opened =
        with (get_object mismatch params) [] (λ fields. each_field read_document fields []) in
      elim opened.outcome [ thrown ↦ h | ok u ↦ compile_capnp_file opened.state h ]

  -- `handleFormatting`: it reads the parameters and does nothing with them, also where they throw.
  unfoldable pub handle_formatting : JsonValue → Handler → Handler
  handle_formatting params h =
      let opened =
        with (get_object mismatch params) [] (λ fields. each_field read_document fields []) in
      elim opened.outcome [ thrown ↦ h | ok u ↦ h ]

  unfoldable pub handle_initialize : JsonValue → Handler → Answer
  unfolding configure
  handle_initialize params h =
      answer (record h { config = configure mismatch params h.config }) initialize_response

  -- A formatting request changes nothing, whatever its parameters.
  pub handle_formatting_lem : (params : JsonValue) (h : Handler) → handle_formatting params h ≡ h
  unfolding handle_formatting
  handle_formatting_lem params h = ground (
    arith,
    Result-cases
        (with (get_object mismatch params) []
          (λ fields. each_field read_document fields [])).outcome,
  )
