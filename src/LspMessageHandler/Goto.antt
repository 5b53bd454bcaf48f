-- ===== src/LspMessageHandler/Goto.antt =====
-- A schema is saved, its compilation ends, and a definition is asked for.
use capnp_ls.Prelude.{ℕ, none, some, Bytes, true, ok, ◌≡◌, refl, ap, ap₂, ◌∙◌, arith}
use capnp_ls.LspTypes.{Location, did_save, definition, try_parse_lsp_method}
use capnp_ls.Utils.{uri_to_path}
use capnp_ls.StdinReader.Numbers.{AllDigits}
use capnp_ls.StdinReader.Frames.{framed}
use capnp_ls.SymbolResolver.Resolve.{Request, resolve}
use capnp_ls.SymbolResolver.Locations.{HasShortFiles}
use capnp_ls.SymbolResolver.Named.{Names, Declares}
use capnp_ls.CompilationManager.{check_capnp_version_compatible}
use capnp_ls.CompilationManager.Effects.{Succeeds}
use capnp_ls.LspMessageHandler.Json.{Double, JsonValue, JsonFields, get_object}
use capnp_ls.LspMessageHandler.Definition.{read_query, holds_position, handle_definition}
use capnp_ls.LspMessageHandler.Messages.{
  dispatch, respond, read_message, response_value, handle_message,
}
use capnp_ls.LspMessageHandler.Handlers.{
  Handler, World, compile_params, compiles, compile_capnp_file, saved_uri, compile_found,
  handle_did_save,
}
use capnp_ls.LspMessageHandler.Induction.{wrote}
use capnp_ls.LspMessageHandler.Answers.{answer_of, zero_based_location}
use capnp_ls.LspMessageHandler.Requests.{handle_message-read, handle_message-definition}
use capnp_ls.LspMessageHandler.Navigation.{handle_definition-compile_capnp_file}

module _ {Reader : Type 0} (world : World Reader) where
  open world use {os, fs, load, request_of, bundled, mismatch, output}

  -- A frame whose body decodes to a notification that the document was saved.
  pub record IsSave (message uri : Bytes) : Type 0 where
    pub digits : Bytes
    pub text : Bytes
    pub root : JsonValue
    pub u : Unit {0}
    pub members : JsonFields
    pub frame : message ≡ framed digits text
    pub all_digits : AllDigits digits
    pub decodes : world.decode text ≡ ok root
    pub reads : (read_message world root).outcome ≡ ok u
    pub no_id : (read_message world root).state.request_id ≡ none
    pub method : try_parse_lsp_method (read_message world root).state.method ≡ some did_save
    pub object : get_object mismatch (read_message world root).state.params ≡ ok members
    pub names_uri : saved_uri world members ≡ ok (some uri)

  -- A frame whose body decodes to a definition request.
  pub record IsDefinition (message : Bytes) (id : Double) (params : JsonValue) : Type 0 where
    pub digits : Bytes
    pub text : Bytes
    pub root : JsonValue
    pub u : Unit {0}
    pub frame : message ≡ framed digits text
    pub all_digits : AllDigits digits
    pub decodes : world.decode text ≡ ok root
    pub reads : (read_message world root).outcome ≡ ok u
    pub has_id : (read_message world root).state.request_id ≡ some id
    pub method : try_parse_lsp_method (read_message world root).state.method ≡ some definition
    pub has_params : (read_message world root).state.params ≡ params

  did_save_compiles :
      (params : JsonValue) (members : JsonFields) (uri : Bytes) (h : Handler)
      → get_object mismatch params ≡ ok members
      → saved_uri world members ≡ ok (some uri)
      → handle_did_save world params h ≡ compile_capnp_file world uri h
  unfolding handle_did_save compile_found
  did_save_compiles params members uri h e f = ground (arith, e, f)

  dispatch_save :
      (params : JsonValue) (h : Handler)
      → respond world none (dispatch world (some did_save) params h)
        ≡ handle_did_save world params h
  unfolding respond dispatch
  dispatch_save params h = refl

  -- The notification compiles the document.
  handle_message-save :
      (message uri : Bytes) (h : Handler)
      → IsSave message uri
      → handle_message world (some message) h ≡ compile_capnp_file world uri h
  handle_message-save message uri h s =
      ap (λ t. handle_message world (some t) h) s.frame
      ∙ handle_message-read world s.digits s.text s.root s.u h s.all_digits s.decodes s.reads
      ∙ ap₂
          (λ i method.
            respond world i (dispatch world method (read_message world s.root).state.params h))
          s.no_id s.method
      ∙ dispatch_save (read_message world s.root).state.params h
      ∙ did_save_compiles (read_message world s.root).state.params s.members uri h s.object
          s.names_uri

  handle_message-ask :
      (message : Bytes) (id : Double) (params : JsonValue) (body : Bytes) (h : Handler)
      → IsDefinition message id params
      → output.encode (response_value id (handle_definition mismatch params h.compiled.symbols))
        ≡ ok body
      → handle_message world (some message) h ≡ wrote world body h
  handle_message-ask message id params body h d e =
      ap (λ t. handle_message world (some t) h) d.frame
      ∙ handle_message-definition world d.digits d.text d.root d.u id body h d.all_digits d.decodes
          d.reads d.has_id d.method
          (ap
              (λ p.
                output.encode (response_value id (handle_definition mismatch p h.compiled.symbols)))
              d.has_params
            ∙ e)

  -- A frame with a didSave notification without an id that names a schema, whose compilation begins,
  -- is handled to its end, the compilation with it, before a frame with a definition request with a
  -- number as its id is begun. Where the version of the compiler is supported, it ends with exit code 0
  -- and a request that resolves, no file is longer than 2^32 - 2 bytes, the parameters of the
  -- definition request can be read, the compiler's request has a file node for the file asked for and
  -- no later one for it, one of its identifiers there has a range that holds the position, every one
  -- whose range does names the same node, the request declares this node, with no later node of its
  -- id, and the response can be encoded: then all that the second message does, log lines apart, is to
  -- write the response to its id with the place of the declaration, lines and characters counted from
  -- 0. What earlier compilations left does not matter. A request that is begun while the compilation
  -- still waits is not meant: it is answered from the symbols of before.
  pub handle_message-definition_saved :
      (save ask uri : Bytes) (h : Handler) (request : Request) (question : Double)
      (params : JsonValue) (u : Unit {0}) (id : ℕ) (location : Location) (body : Bytes)
      → IsSave save uri
      → IsDefinition ask question params
      → HasShortFiles fs
      → compiles world uri h ≡ true
      → (check_capnp_version_compatible os fs load request_of bundled h.config.compiler_path
          h.manager).0
        ≡ true
      → Succeeds os fs load request_of bundled
          (compile_params world (uri_to_path uri) h.config)
          request
      → (resolve fs h.config.import_paths h.config.workspace_path load request h.compiled.symbols).0
        ≡ 0
      → (read_query mismatch params).outcome ≡ ok u
      → Names fs h.config.import_paths h.config.workspace_path request
          (uri_to_path (read_query mismatch params).state.uri)
          (λ range.
            holds_position range
              (read_query mismatch params).state.line
              (read_query mismatch params).state.character)
          id
      → Declares fs h.config.import_paths h.config.workspace_path request id location
      → output.encode (response_value question (answer_of (zero_based_location location))) ≡ ok body
      → handle_message world (some ask) (handle_message world (some save) h)
        ≡ wrote world body (compile_capnp_file world uri h)
  handle_message-definition_saved save ask uri h request question params u id location body saves
        asks short compiles compatible succeeds resolves e n d encodes =
      let answered =
        handle_definition-compile_capnp_file world uri h request params u id location short compiles
          compatible succeeds resolves e n d in
      ap (handle_message world (some ask)) (handle_message-save save uri h saves)
      ∙ handle_message-ask ask question params body (compile_capnp_file world uri h) asks
          (ap (λ answer. output.encode (response_value question answer)) answered ∙ encodes)
