-- ===== src/Server/Handled.antt =====
-- A message that is begun and handled to its end with nothing between, as a run.
use capnp_ls.Prelude.{ℕ, zero, suc, [], append-nil, Option, none, some, Bytes, ◌≡◌, refl, ap, subst}
use capnp_ls.LspMessageHandler.Messages.{handle_message}
use capnp_ls.LspMessageHandler.Handlers.{Handler, World}
use capnp_ls.Server.Tasks.{Task, begin_message, turn}
use capnp_ls.Server.Loop
use capnp_ls.Server.Loop.{Server, started, left, Reach, next, returns}
use capnp_ls.Server.Stages.{alone, result_for}
use capnp_ls.Server.Refines.{alone-begin_message}
use capnp_ls.Server.Runs.{Holds, Holds_turn, Holds_message}

module _ {Reader : Type 0} (world : World Reader) where
  alone-Holds :
      {s : Server} {h' : Handler} (n : ℕ) (h : Handler) (task : Option Task)
      → alone world n (h, task) ≡ (h', none)
      → Holds world s h (Loop.pending task)
      → Holds world s h' []
  unfolding alone
  alone-Holds {s = s} {h' = h'} zero h task e held =
      subst (λ ts. Holds world s h' ts) (ap (λ u. Loop.pending u.1) e)
        (subst (λ g. Holds world s g (Loop.pending task)) (ap (λ u. u.0) e) held)
  alone-Holds {s = s} (suc n) h none e held = subst (λ g. Holds world s g []) (ap (λ u. u.0) e) held
  alone-Holds {s = s} (suc n) h (some task) e held =
      let t = turn world (result_for world task.job) task h in
      alone-Holds n t.0 t.1 e (
        subst (λ ts. Holds world s t.0 ts) (append-nil (Loop.pending t.1))
          (Holds_turn world [] [] task (result_for world task.job) refl held))

  pub handle_message-Holds :
      {s : Server} (message : Option Bytes) (h : Handler)
      → Holds world s h []
      → Holds world s (handle_message world message h) []
  handle_message-Holds message h held =
      let t = begin_message world message h in
      alone-Holds 5 t.0 t.1 (alone-begin_message world message h)
        (Holds_message world message refl held)
