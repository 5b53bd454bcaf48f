-- ===== src/Server/Runs.antt =====
-- Runs of the event loop that are built turn by turn, as the runs that a theorem says exist.
use capnp_ls.Prelude.{◌∷◌, ◌++◌, false, Option, Bytes, List, Result, ◌≡◌, refl, ap, ◌∙◌}
use capnp_ls.SubprocessRunner.{RunResult}
use capnp_ls.LspMessageHandler.Handlers.{Handler, World}
use capnp_ls.Server.Tasks.{Task, begin_message, turn}
use capnp_ls.Server.Loop.{Server, pending, added, turned, Reach, next, here, turns, receives}

module _ {Reader : Type 0} (world : World Reader) where
  -- A state that is reached from `s` and goes on, with this handler and these tasks.
  pub record Holds (s : Server) (h : Handler) (tasks : List Task) : Type 0 where
    pub server : Server
    pub reached : Reach world s server
    pub goes_on : server.exited ≡ false
    pub handler_is : server.handler ≡ h
    pub tasks_are : server.tasks ≡ tasks

  pub Holds_here : (s : Server) → s.exited ≡ false → Holds s s.handler s.tasks
  Holds_here s goes_on = record {
    server = s;
    reached = here;
    goes_on = goes_on;
    handler_is = refl;
    tasks_are = refl;
  }

  pub Holds_turn :
      {s : Server} {h h' : Handler} {task' : Option Task} (before after : List Task) (task : Task)
      (r : Result (RunResult Reader))
      → turn world r task h ≡ (h', task')
      → Holds s h (before ++ (task ∷ after))
      → Holds s h' (before ++ (pending task' ++ after))
  unfolding turned
  Holds_turn before after task r e held =
      let t = turn world r task held.server.handler in
      let moved : t ≡ (_, _) = ap (turn world r task) held.handler_is ∙ e in
      record {
        server = turned before after t held.server;
        reached = next held.reached (turns before after task r held.goes_on held.tasks_are);
        goes_on = held.goes_on;
        handler_is = ap (λ u. u.0) moved;
        tasks_are = ap (λ u. before ++ (pending u.1 ++ after)) moved;
      }

  pub Holds_message :
      {s : Server} {h h' : Handler} {task' : Option Task} {tasks : List Task}
      (message : Option Bytes)
      → begin_message world message h ≡ (h', task')
      → Holds s h tasks
      → Holds s h' (tasks ++ pending task')
  unfolding added
  Holds_message {task' = task'} message e held =
      let t = begin_message world message held.server.handler in
      let moved : t ≡ (_, _) = ap (begin_message world message) held.handler_is ∙ e in
      record {
        server = added t held.server;
        reached = next held.reached (receives message held.goes_on);
        goes_on = held.goes_on;
        handler_is = ap (λ u. u.0) moved;
        tasks_are =
            ap (λ u. held.server.tasks ++ pending u.1) moved
            ∙ ap (λ ts. ts ++ pending task') held.tasks_are;
      }
