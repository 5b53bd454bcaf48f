-- ===== src/LspMessageHandler/Induction.antt =====
-- One rule for all that `handleMessage` keeps: what its four kinds of effects keep.
use capnp_ls.Prelude.{
  refl, ℕ, ◌+◌, true, false, Bool-cases, Option, none, some, Option-cases, Bytes, [], ◌∷◌, ◌++◌,
  drop, strstr, ◌≡◌, inl, inr, arith, Result, ok, thrown, Result-cases,
}
use capnp_ls.LspTypes.{
  LspMethod, initialize, shutdown, did_open, did_save, formatting, try_parse_lsp_method,
  lsp_header_delimiter, lsp_header_delimiter_size,
}
use capnp_ls.Utils.{uri_to_path}
use capnp_ls.CompilationManager.{compile}
use capnp_ls.LspMessageHandler.Json.{
  Double, JsonValue, JsonFields, get_object, Ran, with, each_field,
}
use capnp_ls.LspMessageHandler.Publish.{message_of}
use capnp_ls.LspMessageHandler.Messages.{
  Message, response_value, build_response_string, dispatch, respond, read_message, handle_read,
  handle_decoded, handle_message,
}
use capnp_ls.LspMessageHandler.Handlers.{
  compiles, handle_formatting_lem, Handler, World, Answer, handle_shutdown, compile_params, publish,
  compile_capnp_file, compile_found, saved_uri, handle_did_save, read_document,
  handle_did_open_text_document, handle_initialize,
}

module _ {Reader : Type 0} (world : World Reader) where
  -- What a compilation of the file leaves.
  abbrev pub compiled_at : Bytes → Handler → Handler
  compiled_at path h = publish world path h (
      compile world.os world.fs world.load world.request_of world.bundled
        (compile_params world path h.config) (h.manager, h.compiled))

  abbrev pub wrote : Bytes → Handler → Handler
  wrote body h = record h { written = h.written ++ (message_of world.output body ∷ []) }

  pub record Keeps (Inv : Handler → Type 0) : Type 0 where
    pub shuts : (h : Handler) → Inv h → Inv (handle_shutdown h)
    pub configures :
        (params : JsonValue) (h : Handler) → Inv h → Inv (handle_initialize world params h).handler
    pub compiles : (path : Bytes) (h : Handler) → Inv h → Inv (compiled_at path h)
    pub writes :
        (value : JsonValue) (body : Bytes) (h : Handler)
        → world.output.encode value ≡ ok body
        → Inv h
        → Inv (wrote body h)

  compile_schema :
      (uri : Bytes) (h : Handler)
      → compiles world uri h ≡ true
      → compile_capnp_file world uri h ≡ compiled_at (uri_to_path uri) h
  unfolding compile_capnp_file
  compile_schema uri h e = rw e refl

  compile_other :
      (uri : Bytes) (h : Handler)
      → compiles world uri h ≡ false
      → compile_capnp_file world uri h ≡ h
  unfolding compile_capnp_file
  compile_other uri h e = rw e refl

  save_thrown :
      (params : JsonValue) (h : Handler)
      → get_object world.mismatch params ≡ thrown
      → handle_did_save world params h ≡ h
  unfolding handle_did_save
  save_thrown params h e = ground arith

  save_read :
      (params : JsonValue) (members : JsonFields) (h : Handler)
      → get_object world.mismatch params ≡ ok members
      → handle_did_save world params h ≡ compile_found world (saved_uri world members) h
  unfolding handle_did_save
  save_read params members h e = ground arith

  -- What `handleDidOpenTextDocument` reads.
  abbrev opened : JsonValue → Ran Bytes
  opened params =
      with (get_object world.mismatch params) []
        (λ fields. each_field (read_document world) fields [])

  open_thrown :
      (params : JsonValue) (h : Handler)
      → (opened params).outcome ≡ thrown
      → handle_did_open_text_document world params h ≡ h
  unfolding handle_did_open_text_document
  open_thrown params h e = ground arith

  open_read :
      (params : JsonValue) (u : Unit {0}) (h : Handler)
      → (opened params).outcome ≡ ok u
      → handle_did_open_text_document world params h
        ≡ compile_capnp_file world (opened params).state h
  unfolding handle_did_open_text_document
  open_read params u h e = ground arith

  pub respond_thrown :
      (id : Double) (a : Answer)
      → world.output.encode (response_value id a.response) ≡ thrown
      → respond world (some id) a ≡ a.handler
  unfolding respond build_response_string
  respond_thrown id a e = ground arith

  pub respond_written :
      (id : Double) (a : Answer) (body : Bytes)
      → world.output.encode (response_value id a.response) ≡ ok body
      → respond world (some id) a ≡ wrote body a.handler
  unfolding respond build_response_string
  respond_written id a body e = ground arith

  pub read_thrown : (m : Ran Message) (h : Handler) → m.outcome ≡ thrown → handle_read world m h ≡ h
  unfolding handle_read
  read_thrown m h e = ground arith

  pub read_answered :
      (m : Ran Message) (u : Unit {0}) (h : Handler)
      → m.outcome ≡ ok u
      → handle_read world m h
        ≡ respond world m.state.request_id
            (dispatch world (try_parse_lsp_method m.state.method) m.state.params h)
  unfolding handle_read
  read_answered m u h e = ground arith

  message_no_header :
      (message : Bytes) (h : Handler)
      → strstr message lsp_header_delimiter ≡ none
      → handle_message world (some message) h ≡ handle_shutdown h
  unfolding handle_message
  message_no_header message h e = ground arith

  pub message_decoded :
      (message : Bytes) (header_end : ℕ) (h : Handler)
      → strstr message lsp_header_delimiter ≡ some header_end
      → handle_message world (some message) h
        ≡ handle_decoded world
            (world.decode (drop (header_end + lsp_header_delimiter_size) message))
            h
  unfolding handle_message
  message_decoded message header_end h e = ground arith

  module _ (Inv : Handler → Type 0) (keeps : Keeps Inv) where
    compile-Keeps : (uri : Bytes) (h : Handler) → Inv h → Inv (compile_capnp_file world uri h)
    compile-Keeps uri h i = elim (Bool-cases (compiles world uri h)) [
      | inl e ↦ rw (compile_schema uri h e) (keeps.compiles (uri_to_path uri) h i)
      | inr e ↦ rw (compile_other uri h e) i
    ]

    found-Keeps : (r : Result (Option Bytes)) (h : Handler) → Inv h → Inv (compile_found world r h)
    unfolding compile_found
    found-Keeps thrown h i = i
    found-Keeps (ok none) h i = i
    found-Keeps (ok (some uri)) h i = compile-Keeps uri h i

    save-Keeps : (params : JsonValue) (h : Handler) → Inv h → Inv (handle_did_save world params h)
    save-Keeps params h i = elim (Result-cases (get_object world.mismatch params)) [
      | inl e ↦ rw (save_thrown params h e) i
      | inr (members, e) ↦
          rw (save_read params members h e) (found-Keeps (saved_uri world members) h i)
    ]

    open-Keeps :
        (params : JsonValue) (h : Handler)
        → Inv h
        → Inv (handle_did_open_text_document world params h)
    open-Keeps params h i = elim (Result-cases (opened params).outcome) [
      | inl e ↦ rw (open_thrown params h e) i
      | inr (u, e) ↦ rw (open_read params u h e) (compile-Keeps (opened params).state h i)
    ]

    dispatch-Keeps :
        (method : Option LspMethod) (params : JsonValue) (h : Handler)
        → Inv h
        → Inv (dispatch world method params h).handler
    unfolding dispatch
    dispatch-Keeps (some initialize) params h i = keeps.configures params h i
    dispatch-Keeps (some shutdown) params h i = keeps.shuts h i
    dispatch-Keeps (some did_open) params h i = open-Keeps params h i
    dispatch-Keeps (some did_save) params h i = save-Keeps params h i
    dispatch-Keeps (some formatting) params h i = rw (handle_formatting_lem world params h) i
    dispatch-Keeps _ params h i = i

    respond-Keeps : (id : Option Double) (a : Answer) → Inv a.handler → Inv (respond world id a)
    respond-Keeps none a i = unfold respond in i
    respond-Keeps (some id) a i =
        elim (Result-cases (world.output.encode (response_value id a.response))) [
          | inl e ↦ rw (respond_thrown id a e) i
          | inr (body, e) ↦
              rw (respond_written id a body e)
                (keeps.writes (response_value id a.response) body a.handler e i)
        ]

    read-Keeps : (m : Ran Message) (h : Handler) → Inv h → Inv (handle_read world m h)
    read-Keeps m h i = elim (Result-cases m.outcome) [
      | inl e ↦ rw (read_thrown m h e) i
      | inr (u, e) ↦ rw (read_answered m u h e) (
          respond-Keeps m.state.request_id _
            (dispatch-Keeps (try_parse_lsp_method m.state.method) m.state.params h i))
    ]

    decoded-Keeps : (r : Result JsonValue) (h : Handler) → Inv h → Inv (handle_decoded world r h)
    unfolding handle_decoded
    decoded-Keeps thrown h i = i
    decoded-Keeps (ok root) h i = read-Keeps (read_message world root) h i

    -- `handleMessage` keeps what each of its effects keeps.
    pub handle_message-Keeps :
        (message : Option Bytes) (h : Handler) → Inv h → Inv (handle_message world message h)
    handle_message-Keeps none h i = unfold handle_message in keeps.shuts h i
    handle_message-Keeps (some message) h i =
        elim (Option-cases (strstr message lsp_header_delimiter)) [
          | inl e ↦ rw (message_no_header message h e) (keeps.shuts h i)
          | inr (header_end, e) ↦ rw (message_decoded message header_end h e) (
              decoded-Keeps (world.decode (drop (header_end + lsp_header_delimiter_size) message)) h
                i)
        ]
