-- ===== src/Server/Requests.antt =====
-- The responses that a message asks for, those that tasks owe, and those that a turn gives.
use capnp_ls.Prelude.{
  ℕ, ◌+◌, [], ◌∷◌, ◌++◌, append_assoc, append-nil, Option, none, some, Option-cases, true, false,
  Bytes, drop, strstr, List, Result, ok, thrown, Result-cases, ◌≡◌, refl, sym, ap, ◌∙◌, inl, inr,
  arith,
}
use capnp_ls.LspTypes.{
  LspMethod, initialize, shutdown, definition, did_open, did_change_watched_files, did_save,
  did_change, initialized, set_trace, cancel_request, formatting, try_parse_lsp_method,
  lsp_header_delimiter, lsp_header_delimiter_size,
}
use capnp_ls.SubprocessRunner.{RunResult}
use capnp_ls.LspMessageHandler.Json.{JsonValue, Ran}
use capnp_ls.LspMessageHandler.Messages.{Message, read_message, dispatch}
use capnp_ls.LspMessageHandler.Handlers.{Handler, World}
use capnp_ls.Server.Tasks.{
  Stage, checking, checked, running, compiled, Job, Reply, Task, reply_to, begin_dispatch,
  begin_read, begin_decoded, begin_message, turn_job, turn_reply, turn_parts, turn,
}
use capnp_ls.Server.Begins.{begin_read_thrown, begin_read_ok, begin_no_header, begin_header}
use capnp_ls.Server.Loop.{pending}

abbrev pub owed : Option Reply → List Reply
owed none = []
owed (some reply) = reply ∷ []

-- The responses that tasks still have to give.
abbrev pub waiting : List Task → List Reply
waiting [] = []
waiting (task ∷ tasks) = owed task.reply ++ waiting tasks

-- The responses that the next turn of a task is to give: its own, where no job is left.
abbrev pub given : Task → List Reply
given task = elim task.job [ none ↦ owed task.reply | some job ↦ [] ]

pub waiting-append : (xs ys : List Task) → waiting (xs ++ ys) ≡ waiting xs ++ waiting ys
waiting-append [] ys = refl
waiting-append (x ∷ xs) ys =
    ap (λ r. owed x.reply ++ r) (waiting-append xs ys)
    ∙ sym (append_assoc (owed x.reply) (waiting xs) (waiting ys))

module _ {Reader : Type 0} (world : World Reader) where
  open world use {decode}

  -- The response to a message, from the handler that it finds; a message without an id, or one that
  -- cannot be read, asks for none.
  unfoldable pub requests_read : Ran Message → Handler → List Reply
  requests_read m h = elim m.outcome [
    | thrown ↦ []
    | ok u ↦ owed (
        reply_to m.state.request_id
          (dispatch world (try_parse_lsp_method m.state.method) m.state.params h).response)
  ]

  unfoldable pub requests_decoded : Result JsonValue → Handler → List Reply
  requests_decoded thrown h = []
  requests_decoded (ok root) h = requests_read (read_message world root) h

  unfoldable pub requests : Option Bytes → Handler → List Reply
  requests none h = []
  requests (some message) h = elim (strstr message lsp_header_delimiter) [
    | none ↦ []
    | some header_end ↦
        requests_decoded (decode (drop (header_end + lsp_header_delimiter_size) message)) h
  ]

  begin-dispatch :
      (method : Option LspMethod) (params : JsonValue) (h : Handler)
      → (begin_dispatch world method params h).response ≡ (dispatch world method params h).response
  unfolding begin_dispatch dispatch
  begin-dispatch none params h = refl
  begin-dispatch (some initialize) params h = refl
  begin-dispatch (some shutdown) params h = refl
  begin-dispatch (some definition) params h = refl
  begin-dispatch (some did_open) params h = refl
  begin-dispatch (some did_change_watched_files) params h = refl
  begin-dispatch (some did_save) params h = refl
  begin-dispatch (some did_change) params h = refl
  begin-dispatch (some initialized) params h = refl
  begin-dispatch (some set_trace) params h = refl
  begin-dispatch (some cancel_request) params h = refl
  begin-dispatch (some formatting) params h = refl

  read-requests :
      (m : Ran Message) (h : Handler)
      → waiting (pending (begin_read world m h).1) ≡ requests_read m h
  unfolding requests_read
  read-requests m h = elim (Result-cases m.outcome) [
    | inl e ↦ (let both = begin_read_thrown world m h e in rw both.0 (rw e refl))
    | inr (u, e) ↦
        (let both = begin_read_ok world m u h e in
          rw both.0 (
            rw e (
              append-nil _
              ∙ ap (λ response. owed (reply_to m.state.request_id response))
                  (begin-dispatch (try_parse_lsp_method m.state.method) m.state.params h))))
  ]

  decoded-requests :
      (r : Result JsonValue) (h : Handler)
      → waiting (pending (begin_decoded world r h).1) ≡ requests_decoded r h
  unfolding begin_decoded requests_decoded
  decoded-requests thrown h = refl
  decoded-requests (ok root) h = read-requests (read_message world root) h

  requests_no_header :
      (message : Bytes) (h : Handler)
      → strstr message lsp_header_delimiter ≡ none
      → requests (some message) h ≡ []
  unfolding requests
  requests_no_header message h e = ground (arith, e)

  requests_header :
      (message : Bytes) (header_end : ℕ) (h : Handler)
      → strstr message lsp_header_delimiter ≡ some header_end
      → requests (some message) h
        ≡ requests_decoded (decode (drop (header_end + lsp_header_delimiter_size) message)) h
  unfolding requests
  requests_header message header_end h e = ground (arith, e)

  pub begin-requests :
      (message : Option Bytes) (h : Handler)
      → waiting (pending (begin_message world message h).1) ≡ requests message h
  unfolding requests
  begin-requests none h = unfold begin_message in refl
  begin-requests (some message) h = elim (Option-cases (strstr message lsp_header_delimiter)) [
    | inl e ↦
        (let both = begin_no_header world message h e in
          rw both.0 (sym (requests_no_header message h e)))
    | inr (header_end, e) ↦
        (let both = begin_header world message header_end h e in
          rw both.0 (
            decoded-requests (decode (drop (header_end + lsp_header_delimiter_size) message)) h
            ∙ sym (requests_header message header_end h e)))
  ]

  job-owed :
      (r : Result (RunResult Reader)) (stage : Stage) (job : Job) (reply : Option Reply)
      (h : Handler)
      → waiting (pending (turn_job world r stage job reply h).1) ≡ owed reply
  unfolding turn_job
  job-owed r checking job reply h = append-nil (owed reply)
  job-owed r (checked false) job reply h = append-nil (owed reply)
  job-owed r (checked true) job reply h = append-nil (owed reply)
  job-owed r (running command) job reply h = append-nil (owed reply)
  job-owed r compiled job reply h = append-nil (owed reply)

  reply-owed :
      (reply : Option Reply) (h : Handler) → waiting (pending (turn_reply world reply h).1) ≡ []
  unfolding turn_reply
  reply-owed none h = refl
  reply-owed (some reply) h = refl

  parts-given :
      (r : Result (RunResult Reader)) (job : Option Job) (reply : Option Reply) (h : Handler)
      → given (record { job = job; reply = reply })
          ++ waiting (pending (turn_parts world r job reply h).1)
        ≡ owed reply
  unfolding turn_parts
  parts-given r none reply h =
      ap (λ rest. owed reply ++ rest) (reply-owed reply h) ∙ append-nil (owed reply)
  parts-given r (some job) reply h = job-owed r job.stage job reply h

  pub turn-given :
      (r : Result (RunResult Reader)) (task : Task) (h : Handler)
      → given task ++ waiting (pending (turn world r task h).1) ≡ owed task.reply
  turn-given r task h = parts-given r task.job task.reply h
