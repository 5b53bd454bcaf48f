-- ===== src/LspMessageHandler/Requests.antt =====
-- A request from its frame to its response.
use capnp_ls.Prelude.{
  ◌+◌, some, Bytes, ◌++◌, drop, drop-length, length, length-append, append_assoc, ◌≡◌, refl, sym,
  ap, ap₂, ◌∙◌, arith, ok,
}
use capnp_ls.LspTypes.{
  definition, try_parse_lsp_method, lsp_header_delimiter, lsp_header_delimiter_size,
  lsp_content_length_header,
}
use capnp_ls.StdinReader.Numbers.{AllDigits}
use capnp_ls.StdinReader.Frames.{framed, header_end-framed}
use capnp_ls.LspMessageHandler.Json.{Double, JsonValue}
use capnp_ls.LspMessageHandler.Definition.{handle_definition}
use capnp_ls.LspMessageHandler.Messages.{
  response_value, dispatch, respond, read_message, handle_read, handle_decoded, handle_message,
}
use capnp_ls.LspMessageHandler.Handlers.{Handler, World, answer}
use capnp_ls.LspMessageHandler.Induction.{wrote, respond_written, read_answered, message_decoded}

drop_header :
    (ds body : Bytes) → drop (16 + length ds + lsp_header_delimiter_size) (framed ds body) ≡ body
unfolding framed
drop_header ds body =
    let header = lsp_content_length_header ++ (ds ++ lsp_header_delimiter) in
    let size : 16 + length ds + lsp_header_delimiter_size ≡ length header =
      omega (arith, length-append ds lsp_header_delimiter) in
    ap₂ drop size
      (ap (λ t. lsp_content_length_header ++ t) (sym (append_assoc ds lsp_header_delimiter body)))
    ∙ drop-length header body

module _ {Reader : Type 0} (world : World Reader) where
  decoded_root :
      (root : JsonValue) (h : Handler)
      → handle_decoded world (ok root) h ≡ handle_read world (read_message world root) h
  unfolding handle_decoded
  decoded_root root h = refl

  -- A frame whose body decodes to a message that can be read.
  pub handle_message-read :
      (ds text : Bytes) (root : JsonValue) (u : Unit {0}) (h : Handler)
      → AllDigits ds
      → world.decode text ≡ ok root
      → (read_message world root).outcome ≡ ok u
      → handle_message world (some (framed ds text)) h
        ≡ respond world (read_message world root).state.request_id (
            dispatch world
              (try_parse_lsp_method (read_message world root).state.method)
              (read_message world root).state.params
              h)
  handle_message-read ds text root u h digits decodes reads =
      message_decoded world (framed ds text) (16 + length ds) h (header_end-framed ds text digits)
      ∙ ap (λ t. handle_decoded world (world.decode t) h) (drop_header ds text)
      ∙ ap (λ r. handle_decoded world r h) decodes
      ∙ decoded_root root h
      ∙ read_answered world (read_message world root) u h reads

  dispatch_definition :
      (params : JsonValue) (h : Handler)
      → dispatch world (some definition) params h
        ≡ answer h (handle_definition world.mismatch params h.compiled.symbols)
  unfolding dispatch
  dispatch_definition params h = refl

  -- Where a frame's body decodes to a definition request with a number as its id, and the response
  -- can be encoded, the handler writes exactly one message, the response to this id that
  -- `handleDefinition` gives for the symbols that it has, and changes nothing else.
  pub handle_message-definition :
      (ds text : Bytes) (root : JsonValue) (u : Unit {0}) (id : Double) (body : Bytes) (h : Handler)
      → AllDigits ds
      → world.decode text ≡ ok root
      → (read_message world root).outcome ≡ ok u
      → (read_message world root).state.request_id ≡ some id
      → try_parse_lsp_method (read_message world root).state.method ≡ some definition
      → world.output.encode (
          response_value id (
            handle_definition world.mismatch
              (read_message world root).state.params
              h.compiled.symbols))
        ≡ ok body
      → handle_message world (some (framed ds text)) h ≡ wrote world body h
  handle_message-definition ds text root u id body h digits decodes reads ident method encodes =
      let m = read_message world root in
      let params = m.state.params in
      handle_message-read ds text root u h digits decodes reads
      ∙ ap₂ (λ i method. respond world i (dispatch world method params h)) ident method
      ∙ ap (respond world (some id)) (dispatch_definition params h)
      ∙ respond_written world id
          (answer h (handle_definition world.mismatch params h.compiled.symbols)) body encodes
