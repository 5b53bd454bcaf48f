-- ===== src/Server/Responses.antt =====
-- What a run writes: the responses that its messages ask for, and notifications.
use capnp_ls.Prelude.{
  [], ◌∷◌, ◌++◌, append-nil, false, Option, none, some, Bytes, List, Perm, Result, Result-cases,
  ◌≡◌, refl, sym, ap, ◌∙◌, subst, inl, inr,
}
use capnp_ls.SubprocessRunner.{RunResult}
use capnp_ls.LspLogger.{log_notification}
use capnp_ls.LspLogger.Levels.{log_message-ok}
use capnp_ls.LspMessageHandler.Conforming.{log-is_notification}
use capnp_ls.LspMessageHandler.Messages.{response_value}
use capnp_ls.LspMessageHandler.Induction.{respond_thrown, respond_written}
use capnp_ls.LspMessageHandler.Handlers.{
  Handler, World, answer, publish, handle_initialize, handle_shutdown,
}
use capnp_ls.Server.Tasks.{Job, Reply, turn_parts, turn_reply}
use capnp_ls.Server.Loop.{
  Server, added, turned, logged, signalled, left, Step, receives, turns, logs, interrupted, returns,
  Reach, here, next,
}
use capnp_ls.Server.Induction.{KeepsState, message-Keeps, job-Keeps}
use capnp_ls.Server.Entries.{
  Entry, response, replies, AllNotify, texts, text_of-ok, text_of-thrown, Wrote, no_entries,
  Wrote-Wrote, one_notice, published-Wrote,
}
use capnp_ls.Server.Requests.{waiting, given}
use capnp_ls.Server.Answered.{step_answered, asked, answered, reach-Perm}

module _ {Reader : Type 0} (world : World Reader) where
  open world use {output}

  -- The handler wrote notifications, and no response.
  abbrev Notifies : List Bytes → Handler → Type 0
  Notifies before h = Wrote output before h.written []

  keeps-Notifies : (before : List Bytes) → KeepsState world (Notifies before)
  unfolding publish handle_initialize handle_shutdown
  keeps-Notifies before = record {
    shuts = λ h i. i;
    configures = λ params h i. i;
    checks = λ compatible h i. i;
    clears = λ h i. i;
    results = λ job r h i. i;
    publishes = λ path h i.
        Wrote-Wrote output [] i (published-Wrote output h.written h.config.workspace_path path _);
  }

  reply-Wrote :
      (reply : Reply) (h : Handler)
      → Wrote output h.written (turn_reply world (some reply) h).0.written (reply ∷ [])
  unfolding turn_reply
  reply-Wrote reply h =
      elim (Result-cases (output.encode (response_value reply.request_id reply.response))) [
        | inl e ↦ rw (respond_thrown world reply.request_id (answer h reply.response) e) (record {
          entries = response reply ∷ [];
          written = sym (
              ap (λ l. h.written ++ l) (text_of-thrown output (response reply) e)
              ∙ append-nil h.written);
          notify = tt;
          answering = refl;
        })
        | inr (body, e) ↦
            rw (respond_written world reply.request_id (answer h reply.response) body e) (record {
              entries = response reply ∷ [];
              written = ap (λ l. h.written ++ l) (text_of-ok output (response reply) body e);
              notify = tt;
              answering = refl;
            })
      ]

  parts-Wrote :
      (r : Result (RunResult Reader)) (job : Option Job) (reply : Option Reply) (h : Handler)
      → Wrote output h.written
          (turn_parts world r job reply h).0.written
          (given (record { job = job; reply = reply }))
  unfolding turn_parts turn_reply
  parts-Wrote r (some job) reply h =
      job-Keeps world (Notifies h.written) (keeps-Notifies h.written) r job.stage job reply h
        (no_entries output h.written)
  parts-Wrote r none none h = no_entries output h.written
  parts-Wrote r none (some reply) h = reply-Wrote reply h

  step-Wrote :
      {s t : Server} (step : Step world s t)
      → Wrote output s.handler.written t.handler.written (step_answered world step)
  unfolding added turned logged signalled left step_answered handle_shutdown
  step-Wrote {s} (receives message e) =
      message-Keeps world (Notifies s.handler.written) (keeps-Notifies s.handler.written) message
        s.handler (no_entries output s.handler.written)
  step-Wrote {s} (turns before after task r e f) = parts-Wrote r task.job task.reply s.handler
  step-Wrote {s} (logs severity file line message text e f) =
      let (full, body, g, same) = log_message-ok output severity file line message text f in
      subst (λ t. Wrote output s.handler.written (s.handler.written ++ (t ∷ [])) []) same
        (one_notice output s.handler.written (log_notification severity full) body
          (log-is_notification severity full) g)
  step-Wrote {s} (interrupted e) = no_entries output s.handler.written
  step-Wrote {s} (returns e f) = no_entries output s.handler.written

  reach-Wrote :
      {s t : Server} (r : Reach world s t)
      → Wrote output s.handler.written t.handler.written (answered world r)
  unfolding answered
  reach-Wrote {s} here = no_entries output s.handler.written
  reach-Wrote (next r step) =
      Wrote-Wrote output (answered world r) (reach-Wrote r) (step-Wrote step)

  -- In every run, until `run` returns, what is written is a sequence of responses and of notifications
  -- that a server may send, each written once (a response that cannot be encoded has no text). The
  -- responses in it and those that the waiting tasks still owe are, in some order, just the responses
  -- that the messages of the run ask for and that the tasks at its start owed: none is written twice,
  -- none that was not asked for, and none is lost. A message asks for the response that the handler
  -- gives to its id when it is begun.
  pub Reach-answered :
      {s t : Server} (r : Reach world s t)
      → t.exited ≡ false
      → (entries : List Entry) × (t.handler.written ≡ s.handler.written ++ texts output entries)
        × AllNotify entries
        × Perm (asked world r ++ waiting s.tasks) (replies entries ++ waiting t.tasks)
  Reach-answered {s} {t} r goes_on =
      let w = reach-Wrote r in
      (
        w.entries,
        w.written,
        w.notify,
        subst (λ given_now. Perm (asked world r ++ waiting s.tasks) (given_now ++ waiting t.tasks))
            (sym w.answering) (reach-Perm world r goes_on),
      )
