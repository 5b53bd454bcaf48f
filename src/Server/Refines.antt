-- ===== src/Server/Refines.antt =====
-- `begin_message` and the turns of its task against `handle_message`.
use capnp_ls.Prelude.{
  ◌+◌, Bool-cases, Option, none, some, Option-cases, Bytes, drop, strstr, Result, ok, thrown,
  Result-cases, ◌≡◌, refl, sym, ap, ◌∙◌, inl, inr,
}
use capnp_ls.LspTypes.{
  LspMethod, initialize, did_open, did_save, try_parse_lsp_method, lsp_header_delimiter,
  lsp_header_delimiter_size,
}
use capnp_ls.Utils.{uri_to_path}
use capnp_ls.LspMessageHandler.Json.{Double, JsonValue, null_value, get_object, Ran}
use capnp_ls.LspMessageHandler.Messages.{
  Message, read_message, dispatch, respond, handle_read, handle_decoded, handle_message,
}
use capnp_ls.LspMessageHandler.Handlers.{
  compiles, Handler, World, answer, handle_shutdown, saved_uri, compile_capnp_file, compile_found,
  handle_did_save, handle_did_open_text_document,
}
use capnp_ls.Server.Tasks.{
  Job, Reply, Turn, begin_compile, begin_found, begin_did_save, begin_did_open, begin_dispatch,
  reply_to, task_of, begin_read, begin_decoded, begin_message,
}
use capnp_ls.Server.Stages.{alone, replied, alone_reply}
use capnp_ls.Server.Alone.{job_for, alone_begun}
use capnp_ls.Server.Begins.{
  begin_schema, begin_other, compile_schema, compile_other, save_thrown, save_read, opened,
  open_thrown, open_read, begin_read_thrown, begin_read_ok, begin_no_header, begin_header,
}

module _ {Reader : Type 0} (world : World Reader) where
  open world use {os, fs, load, request_of, bundled, mismatch}

  abbrev pending : Handler → Option Job → Option Reply → Turn
  pending h job reply = (h, some (record { job = job; reply = reply }))

  alone_compile :
      (uri : Bytes) (reply : Option Reply) (h : Handler)
      → alone world 5 (pending h (begin_compile world uri h) reply)
        ≡ (replied world reply (compile_capnp_file world uri h), none)
  alone_compile uri reply h = elim (Bool-cases (compiles world uri h)) [
    | inl e ↦
        ap (λ j. alone world 5 (pending h j reply)) (begin_schema world uri h e)
        ∙ alone_begun world (job_for world (uri_to_path uri) h) reply h
        ∙ ap (λ g. (replied world reply g, none)) (sym (compile_schema world uri h e))
    | inr e ↦
        ap (λ j. alone world 5 (pending h j reply)) (begin_other world uri h e)
        ∙ alone_reply world 4 reply h
        ∙ ap (λ g. (replied world reply g, none)) (sym (compile_other world uri h e))
  ]

  alone_found :
      (r : Result (Option Bytes)) (reply : Option Reply) (h : Handler)
      → alone world 5 (pending h (begin_found world r h) reply)
        ≡ (replied world reply (compile_found world r h), none)
  unfolding begin_found compile_found
  alone_found thrown reply h = alone_reply world 4 reply h
  alone_found (ok none) reply h = alone_reply world 4 reply h
  alone_found (ok (some uri)) reply h = alone_compile uri reply h

  -- A job and a handler that agree on what the task does alone.
  abbrev Agrees : Option Job → Handler → Handler → Type 0
  Agrees job h g =
      (reply : Option Reply) → alone world 5 (pending h job reply) ≡ (replied world reply g, none)

  Agrees-eq :
      (job job' : Option Job) (h g g' : Handler)
      → job ≡ job'
      → g ≡ g'
      → Agrees job' h g'
      → Agrees job h g
  Agrees-eq job job' h g g' e f a reply =
      ap (λ j. alone world 5 (pending h j reply)) e
      ∙ a reply
      ∙ ap (λ k. (replied world reply k, none)) (sym f)

  none-Agrees : (h : Handler) → Agrees none h h
  none-Agrees h reply = alone_reply world 4 reply h

  save-Agrees :
      (params : JsonValue) (h : Handler)
      → Agrees (begin_did_save world params h) h (handle_did_save world params h)
  save-Agrees params h = elim (Result-cases (get_object mismatch params)) [
    | inl e ↦
        (let both = save_thrown world params h e in
          Agrees-eq _ none h _ h both.0 both.1 (none-Agrees h))
    | inr (members, e) ↦
        (let both = save_read world params members h e in
          Agrees-eq _ (begin_found world (saved_uri world members) h) h _
            (compile_found world (saved_uri world members) h) both.0 both.1
            (λ reply. alone_found (saved_uri world members) reply h))
  ]

  open-Agrees :
      (params : JsonValue) (h : Handler)
      → Agrees (begin_did_open world params h) h (handle_did_open_text_document world params h)
  open-Agrees params h = elim (Result-cases (opened world params).outcome) [
    | inl e ↦
        (let both = open_thrown world params h e in
          Agrees-eq _ none h _ h both.0 both.1 (none-Agrees h))
    | inr (u, e) ↦
        (let both = open_read world params u h e in
          Agrees-eq _ (begin_compile world (opened world params).state h) h _
            (compile_capnp_file world (opened world params).state h) both.0 both.1
            (λ reply. alone_compile (opened world params).state reply h))
  ]

  replied-answer :
      (id : Option Double) (response : JsonValue) (h : Handler)
      → replied world (reply_to id response) h ≡ respond world id (answer h response)
  unfolding respond
  replied-answer none response h = refl
  replied-answer (some id) response h = refl

  -- A task whose job agrees with a handler is a response of this handler.
  task-Agrees :
      (id : Option Double) (job : Option Job) (response : JsonValue) (h g : Handler)
      → Agrees job h g
      → alone world 5 (task_of id (record { handler = h; job = job; response = response }))
        ≡ (respond world id (answer g response), none)
  task-Agrees id job response h g a =
      a (reply_to id response) ∙ ap (λ k. (k, none)) (replied-answer id response g)

  alone-dispatch :
      (id : Option Double) (method : Option LspMethod) (params : JsonValue) (h : Handler)
      → alone world 5 (task_of id (begin_dispatch world method params h))
        ≡ (respond world id (dispatch world method params h), none)
  unfolding begin_dispatch dispatch
  alone-dispatch id (some initialize) params h = task-Agrees id none _ _ _ (none-Agrees _)
  alone-dispatch id (some did_open) params h =
      task-Agrees id _ null_value h _ (open-Agrees params h)
  alone-dispatch id (some did_save) params h =
      task-Agrees id _ null_value h _ (save-Agrees params h)
  alone-dispatch id _ params h = task-Agrees id none _ _ _ (none-Agrees _)

  alone_done : (h : Handler) → alone world 5 (h, none) ≡ (h, none)
  unfolding alone
  alone_done h = refl

  alone_read :
      (m : Ran Message) (h : Handler)
      → alone world 5 (begin_read world m h) ≡ (handle_read world m h, none)
  alone_read m h = elim (Result-cases m.outcome) [
    | inl e ↦
        (let both = begin_read_thrown world m h e in
          ap (alone world 5) both.0 ∙ alone_done h ∙ ap (λ g. (g, none)) (sym both.1))
    | inr (u, e) ↦
        (let both = begin_read_ok world m u h e in
          ap (alone world 5) both.0
          ∙ alone-dispatch m.state.request_id (try_parse_lsp_method m.state.method) m.state.params h
          ∙ ap (λ g. (g, none)) (sym both.1))
  ]

  alone_decoded :
      (r : Result JsonValue) (h : Handler)
      → alone world 5 (begin_decoded world r h) ≡ (handle_decoded world r h, none)
  unfolding begin_decoded handle_decoded
  alone_decoded thrown h = alone_done h
  alone_decoded (ok root) h = alone_read (read_message world root) h

  -- A message that is begun, and whose task is then given its turns with the results of its
  -- processes and no other turn between, ends within five turns and does what `handle_message` does.
  pub alone-begin_message :
      (message : Option Bytes) (h : Handler)
      → alone world 5 (begin_message world message h) ≡ (handle_message world message h, none)
  alone-begin_message none h = unfold begin_message handle_message in alone_done (handle_shutdown h)
  alone-begin_message (some message) h = elim (Option-cases (strstr message lsp_header_delimiter)) [
    | inl e ↦
        (let both = begin_no_header world message h e in
          ap (alone world 5) both.0
          ∙ alone_done (handle_shutdown h)
          ∙ ap (λ g. (g, none)) (sym both.1))
    | inr (header_end, e) ↦
        (let both = begin_header world message header_end h e in
          ap (alone world 5) both.0
          ∙ alone_decoded (world.decode (drop (header_end + lsp_header_delimiter_size) message)) h
          ∙ ap (λ g. (g, none)) (sym both.1))
  ]
