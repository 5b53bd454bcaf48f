-- ===== src/Server/Loop.antt =====
-- The event loop: a message is begun, a task has its turn, a line is logged, a signal arrives, `run`
-- returns. Nothing orders these but what each needs.
use capnp_ls.Prelude.{
  ℕ, ok, Bool, true, false, Option, none, some, Bytes, List, [], ◌∷◌, ◌++◌, Result, ◌≡◌,
}
use capnp_ls.SubprocessRunner.{RunResult}
use capnp_ls.LspMessageHandler.Handlers.{Handler, World, handle_shutdown}
use capnp_ls.LspLogger.{LogSeverity, log_message}
use capnp_ls.Server.Tasks.{Task, Turn, begin_message, turn}

-- The handler, the task set of StdinReader, and whether `run` has returned.
pub record Server : Type 0 where
  pub handler : Handler
  pub tasks : List Task
  pub exited : Bool

abbrev pub pending : Option Task → List Task
pending none = []
pending (some task) = task ∷ []

-- `run` up to its wait.
abbrev pub started : Server
started = record {
  handler = record {
    config = record { workspace_path = []; compiler_path = []; import_paths = [] };
    compiled = record {
      symbols = record { position_to_node_id = []; node_location = [] };
      diagnostic_map = [];
    };
    manager = record { is_capnp_version_compatible = false };
    written = [];
    shut_down = false;
  };
  tasks = [];
  exited = false;
}

-- `tasks.add(handler.handleMessage(…))`
unfoldable pub added : Turn → Server → Server
added (h, task) s = record s { handler = h; tasks = s.tasks ++ pending task }

-- A task between others, behind its turn.
unfoldable pub turned : List Task → List Task → Turn → Server → Server
turned before after (h, task) s = record s {
  handler = h;
  tasks = before ++ (pending task ++ after);
}

-- `ServerContext::shutdown`, which fulfills the promise that `run` waits for.
unfoldable pub signalled : Server → Server
signalled s = record s { handler = handle_shutdown s.handler }

-- `run` returns, and what still waits is dropped.
unfoldable pub left : Server → Server
left s = record s { tasks = []; exited = true }

-- `LspLogger::logMessage` of a line that is logged.
unfoldable pub logged : Bytes → Server → Server
logged text s = record s {
  handler = record s.handler { written = s.handler.written ++ (text ∷ []) };
}

module _ {Reader : Type 0} (world : World Reader) where
  -- Where the task waited for a process, `r` is its result. These are more steps than the code has: a
  -- task may have its turn between two messages of one read, and a message may be begun where `run`
  -- was told to shut down and has not returned.
  pub data Step (s : Server) : Server → Type 0 where
    receives :
        (message : Option Bytes)
        → s.exited ≡ false
        → Step s (added (begin_message world message s.handler) s)
    turns :
        (before after : List Task) (task : Task) (r : Result (RunResult Reader))
        → s.exited ≡ false
        → s.tasks ≡ before ++ (task ∷ after)
        → Step s (turned before after (turn world r task s.handler) s)
    logs :
        (severity : LogSeverity) (file : Bytes) (line : ℕ) (message text : Bytes)
        → s.exited ≡ false
        → log_message world.output severity file line message ≡ ok text
        → Step s (logged text s)
    interrupted : s.exited ≡ false → Step s (signalled s)
    returns : s.exited ≡ false → s.handler.shut_down ≡ true → Step s (left s)

  pub data Reach (s : Server) : Server → Type 0 where
    here : Reach s s
    next : {t u : Server} → Reach s t → Step t u → Reach s u
