-- ===== src/Server/Begins.antt =====
-- The branches of `begin_message` and of `handle_message`, side by side.
use capnp_ls.Prelude.{
  refl, ℕ, ◌+◌, [], true, false, none, some, Bytes, drop, strstr, ok, thrown, ◌≡◌, arith,
}
use capnp_ls.LspTypes.{try_parse_lsp_method, lsp_header_delimiter, lsp_header_delimiter_size}
use capnp_ls.Utils.{uri_to_path}
use capnp_ls.LspMessageHandler.Json.{JsonValue, JsonFields, get_object, Ran, with, each_field}
use capnp_ls.LspMessageHandler.Messages.{
  Message, dispatch, respond, handle_read, handle_decoded, handle_message,
}
use capnp_ls.LspMessageHandler.Handlers.{
  compiles, Handler, World, handle_shutdown, saved_uri, read_document, compile_capnp_file,
  compile_found, handle_did_save, handle_did_open_text_document,
}
use capnp_ls.Server.Tasks.{
  begin_compile, begin_found, begin_did_save, begin_did_open, begin_dispatch, task_of, begin_read,
  begin_decoded, begin_message,
}
use capnp_ls.Server.Alone.{job_for, compiled_by}

module _ {Reader : Type 0} (world : World Reader) where
  open world use {os, fs, load, request_of, bundled, mismatch}

  pub begin_schema :
      (uri : Bytes) (h : Handler)
      → compiles world uri h ≡ true
      → begin_compile world uri h ≡ some (job_for world (uri_to_path uri) h)
  unfolding begin_compile
  begin_schema uri h e = rw e refl

  pub begin_other :
      (uri : Bytes) (h : Handler) → compiles world uri h ≡ false → begin_compile world uri h ≡ none
  unfolding begin_compile
  begin_other uri h e = rw e refl

  pub compile_schema :
      (uri : Bytes) (h : Handler)
      → compiles world uri h ≡ true
      → compile_capnp_file world uri h ≡ compiled_by world (job_for world (uri_to_path uri) h) h
  unfolding compile_capnp_file
  compile_schema uri h e = rw e refl

  pub compile_other :
      (uri : Bytes) (h : Handler)
      → compiles world uri h ≡ false
      → compile_capnp_file world uri h ≡ h
  unfolding compile_capnp_file
  compile_other uri h e = rw e refl

  pub save_thrown :
      (params : JsonValue) (h : Handler)
      → get_object mismatch params ≡ thrown
      → (begin_did_save world params h ≡ none) × (handle_did_save world params h ≡ h)
  unfolding begin_did_save handle_did_save
  save_thrown params h e = ground arith

  pub save_read :
      (params : JsonValue) (members : JsonFields) (h : Handler)
      → get_object mismatch params ≡ ok members
      → (begin_did_save world params h ≡ begin_found world (saved_uri world members) h)
        × (handle_did_save world params h ≡ compile_found world (saved_uri world members) h)
  unfolding begin_did_save handle_did_save
  save_read params members h e = ground arith

  abbrev pub opened : JsonValue → Ran Bytes
  opened params =
      with (get_object mismatch params) [] (λ members. each_field (read_document world) members [])

  pub open_thrown :
      (params : JsonValue) (h : Handler)
      → (opened params).outcome ≡ thrown
      → (begin_did_open world params h ≡ none) × (handle_did_open_text_document world params h ≡ h)
  unfolding begin_did_open handle_did_open_text_document
  open_thrown params h e = ground arith

  pub open_read :
      (params : JsonValue) (u : Unit {0}) (h : Handler)
      → (opened params).outcome ≡ ok u
      → (begin_did_open world params h ≡ begin_compile world (opened params).state h)
        × (handle_did_open_text_document world params h
            ≡ compile_capnp_file world (opened params).state h)
  unfolding begin_did_open handle_did_open_text_document
  open_read params u h e = ground arith

  pub begin_read_thrown :
      (m : Ran Message) (h : Handler)
      → m.outcome ≡ thrown
      → (begin_read world m h ≡ (h, none)) × (handle_read world m h ≡ h)
  unfolding begin_read handle_read
  begin_read_thrown m h e = ground arith

  pub begin_read_ok :
      (m : Ran Message) (u : Unit {0}) (h : Handler)
      → m.outcome ≡ ok u
      → (begin_read world m h
          ≡ task_of m.state.request_id
              (begin_dispatch world (try_parse_lsp_method m.state.method) m.state.params h))
        × (handle_read world m h
            ≡ respond world m.state.request_id
                (dispatch world (try_parse_lsp_method m.state.method) m.state.params h))
  unfolding begin_read handle_read
  begin_read_ok m u h e = ground arith

  pub begin_no_header :
      (message : Bytes) (h : Handler)
      → strstr message lsp_header_delimiter ≡ none
      → (begin_message world (some message) h ≡ (handle_shutdown h, none))
        × (handle_message world (some message) h ≡ handle_shutdown h)
  unfolding begin_message handle_message
  begin_no_header message h e = ground arith

  pub begin_header :
      (message : Bytes) (header_end : ℕ) (h : Handler)
      → strstr message lsp_header_delimiter ≡ some header_end
      → let root = world.decode (drop (header_end + lsp_header_delimiter_size) message) in
        (begin_message world (some message) h ≡ begin_decoded world root h)
        × (handle_message world (some message) h ≡ handle_decoded world root h)
  unfolding begin_message handle_message
  begin_header message header_end h e = ground arith
