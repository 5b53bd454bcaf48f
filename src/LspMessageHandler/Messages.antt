-- ===== src/LspMessageHandler/Messages.antt =====
-- `handleMessage`: what it reads, its dispatch, and the response.
use capnp_ls.Prelude.{
  ◌+◌, Option, none, some, Bytes, [], ◌∷◌, ◌++◌, drop, strstr, same, if◌then◌else◌, Result, ok,
  thrown,
}
use capnp_ls.LspTypes.{
  LspMethod, initialize, shutdown, definition, did_open, did_save, formatting, try_parse_lsp_method,
  lsp_header_delimiter, lsp_header_delimiter_size, lsp_jsonrpc, lsp_json_rpc_version, lsp_method,
  lsp_id, lsp_params, lsp_result,
}
use capnp_ls.LspMessageHandler.Json.{
  Double, JsonValue, null_value, number_value, string_value, object_value, no_fields, field_and,
  get_object, get_string, Ran, ended, with, each_field,
}
use capnp_ls.LspMessageHandler.Definition.{handle_definition}
use capnp_ls.LspMessageHandler.Publish.{message_of}
use capnp_ls.LspMessageHandler.Handlers.{
  Handler, World, handle_shutdown, Answer, answer, handle_did_save, handle_did_open_text_document,
  handle_initialize, handle_formatting,
}

-- What `handleMessage` reads from the object.
pub record Message : Type 0 where
  pub method : Bytes
  pub request_id : Option Double
  pub params : JsonValue

-- The response of `buildResponseString`.
unfoldable pub result_of : JsonValue → JsonValue
result_of (object_value (field_and name (object_value fields) more)) = object_value fields
result_of _ = null_value

abbrev pub response_value : Double → JsonValue → JsonValue
response_value id result = object_value (
    field_and lsp_jsonrpc (string_value lsp_json_rpc_version)
      (field_and lsp_id (number_value id) (field_and lsp_result (result_of result) no_fields)))

module _ {Reader : Type 0} (world : World Reader) where
  open world use {mismatch, output, decode}

  unfoldable pub build_response_string : Double → JsonValue → Result Bytes
  unfolding message_of result_of
  build_response_string id result = elim (output.encode (response_value id result)) [
    | thrown ↦ thrown
    | ok body ↦ ok (message_of output body)
  ]

  -- The switch; a method without a case builds no response. The lines that it logs are left out.
  unfoldable pub dispatch : Option LspMethod → JsonValue → Handler → Answer
  unfolding handle_initialize handle_definition handle_did_open_text_document handle_did_save
      handle_formatting
  dispatch (some initialize) params h = handle_initialize world params h
  dispatch (some shutdown) params h = answer (handle_shutdown h) null_value
  dispatch (some definition) params h =
      answer h (handle_definition mismatch params h.compiled.symbols)
  dispatch (some formatting) params h = answer (handle_formatting world params h) null_value
  dispatch (some did_open) params h =
      answer (handle_did_open_text_document world params h) null_value
  dispatch (some did_save) params h = answer (handle_did_save world params h) null_value
  dispatch _ params h = answer h null_value

  unfoldable pub respond : Option Double → Answer → Handler
  unfolding build_response_string
  respond none a = a.handler
  respond (some id) a = elim (build_response_string id a.response) [
    | thrown ↦ a.handler
    | ok text ↦ (let h = a.handler in record h { written = h.written ++ (text ∷ []) })
  ]

  -- The loop over the fields of the message.
  unfoldable pub read_id : JsonValue → Option Double → Option Double
  read_id (number_value id) before = some id
  read_id _ before = before

  unfoldable pub read_field : Bytes → JsonValue → Message → Ran Message
  unfolding with get_string read_id same
  read_field name value m =
      if same name lsp_method
      then with (get_string mismatch value) m (λ method. ended (record m { method = method }))
      else if same name lsp_id
      then ended (record m { request_id = read_id value m.request_id })
      else if same name lsp_params
      then ended (record m { params = value })
      else ended m

  unfoldable pub read_message : JsonValue → Ran Message
  unfolding with get_object each_field read_field
  read_message root =
      let empty : Message = record { method = []; request_id = none; params = null_value } in
      with (get_object mismatch root) empty (λ fields. each_field read_field fields empty)

  unfoldable pub handle_read : Ran Message → Handler → Handler
  unfolding dispatch respond try_parse_lsp_method
  handle_read m h = elim m.outcome [
    | thrown ↦ h
    | ok u ↦
        respond m.state.request_id (dispatch (try_parse_lsp_method m.state.method) m.state.params h)
  ]

  unfoldable pub handle_decoded : Result JsonValue → Handler → Handler
  unfolding handle_read read_message
  handle_decoded thrown h = h
  handle_decoded (ok root) h = handle_read (read_message root) h

  -- `handleMessage` and its promise, to its end, with nothing between: two of them in a row are not two
  -- messages of one read, the second of which is begun where the first waits for a process.
  unfoldable pub handle_message : Option Bytes → Handler → Handler
  unfolding handle_decoded strstr
  handle_message none h = handle_shutdown h
  handle_message (some message) h = elim (strstr message lsp_header_delimiter) [
    | none ↦ handle_shutdown h
    | some header_end ↦
        handle_decoded (decode (drop (header_end + lsp_header_delimiter_size) message)) h
  ]
