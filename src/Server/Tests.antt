-- ===== src/Server/Tests.antt =====
-- Runs of the server on a client's messages, with the compiler of the manager's runs.
use capnp_ls.Prelude.{
  Perm, ◌≤◌, ◌*◌, [], ◌∷◌, ◌++◌, true, false, Option, none, some, Bytes, bytes, List, length, ◌≡◌,
  refl, thrown, find, bytes_key, ap, upsert, arith, ◌≢◌,
}
use capnp_ls.SubprocessRunner.{RunResult, success}
use capnp_ls.CompileErrorParser.{DiagnosticMap, parse, is_space, is_digit, is_word, atoi_from}
use capnp_ls.SymbolResolver.Sample.{short_disk, workspace}
use capnp_ls.CompilationManager.{strip_working_dir, build_command, command_args, compiler_of}
use capnp_ls.CompilationManager.Compile.{OnlyFor}
use capnp_ls.LspMessageHandler.Invariants.{Writes}
use capnp_ls.LspMessageHandler.Publish.{notifications}
use capnp_ls.LspMessageHandler.Messages.{handle_message}
use capnp_ls.LspMessageHandler.Sample.{world, handler, short_output, short_output-PrintsLengths}
use capnp_ls.Server.Tasks.{checked, compiled, Job, begin_message, turn, turn_parts, turn_job}
use capnp_ls.Server.Loop.{Server, Reach, turns, turned}
use capnp_ls.Server.Stages.{alone}
use capnp_ls.Server.Refines.{alone-begin_message}
use capnp_ls.Server.Requests.{waiting}
use capnp_ls.Server.Answered.{asked}
use capnp_ls.Server.Entries.{Entry, texts, AllNotify, replies}
use capnp_ls.Server.Responses.{Reach-answered}
use capnp_ls.Server.Sent.{Sends, Reach-Sends}
use capnp_ls.Server.Runs.{Holds, Holds_here}
use capnp_ls.Server.Handled.{handle_message-Holds}
use capnp_ls.Server.Session.{Session}
use capnp_ls.Server.Safety.{IsSound, Reach-IsSound, Reach-Writes}
use capnp_ls.Server.Ends.{none_yet, one_more, Turns-le}
use capnp_ls.Server.Current.{AllCurrent, Steady, stays, goes, Steady-AllCurrent}
use capnp_ls.Server.Overlap.{waits, Reach-mixed}

abbrev message : Option Bytes
message = some (bytes "Content-Length: 2\r\n\r\n{}")

alone-begin_message_example :
    alone world 5 (begin_message world message handler)
    ≡ (handle_message world message handler, none)
alone-begin_message_example = alone-begin_message world message handler

abbrev ready : Server
ready = record { handler = handler; tasks = []; exited = false }

-- The server with the message handled.
abbrev saved : Holds world ready (handle_message world message handler) []
saved = handle_message-Holds world message handler (Holds_here world ready refl)

ready-IsSound : IsSound handler
unfolding find
ready-IsSound = record {
  symbols = record { ranges = tt; locations = tt };
  diagnostics = λ file. tt;
}

Reach-IsSound_example : IsSound saved.server.handler
Reach-IsSound_example = Reach-IsSound world short_disk ready-IsSound saved.reached

Reach-Writes_example : Writes [] saved.server.handler.written
Reach-Writes_example = Reach-Writes world short_output-PrintsLengths saved.reached

Reach-answered_example :
    (entries : List Entry) × (saved.server.handler.written ≡ texts world.output entries)
    × AllNotify entries
    × Perm (asked world saved.reached ++ []) (replies entries ++ waiting saved.server.tasks)
Reach-answered_example = Reach-answered world saved.reached saved.goes_on

Reach-Sends_example : Sends world.output [] saved.server.handler.written
Reach-Sends_example = Reach-Sends world saved.reached

-- Two files that are saved one behind the other.
abbrev job_of : Bytes → Job
job_of path = record {
  path = path;
  compiler_path = bytes "/bin/capnp";
  working_dir = workspace;
  stage = checked true;
}

abbrev both : Server
both = record ready {
  tasks =
      waits (checked true) (job_of (bytes "/w/a.capnp")) none
      ∷ waits (checked true) (job_of (bytes "/w/bc.capnp")) none
      ∷ [];
}

Turns-le_example : 1 ≤ 5 * length both.tasks
Turns-le_example = Turns-le world {s = both} (
    one_more [] (waits (checked true) (job_of (bytes "/w/bc.capnp")) none ∷ [])
      (waits (checked true) (job_of (bytes "/w/a.capnp")) none) thrown none_yet refl)

-- The first of them has run its command.
abbrev first_ran : Server
first_ran =
    turned [] (waits (checked true) (job_of (bytes "/w/bc.capnp")) none ∷ [])
      (turn world thrown (waits (checked true) (job_of (bytes "/w/a.capnp")) none) both.handler)
      both

first_ran-Steady : Steady world both first_ran
unfolding turned turn_parts turn_job
first_ran-Steady =
    goes stays
      (turns [] (waits (checked true) (job_of (bytes "/w/bc.capnp")) none ∷ [])
        (waits (checked true) (job_of (bytes "/w/a.capnp")) none) thrown refl refl)
      refl

Steady-AllCurrent_example : AllCurrent first_ran.handler.config first_ran.tasks
Steady-AllCurrent_example =
    Steady-AllCurrent world {s = both} ((refl, refl), ((refl, refl), tt)) first_ran-Steady

abbrev succeeded : RunResult (Unit {0})
succeeded = record {
  status = success;
  exit_code = 0;
  maybe_reader = some tt;
  text_output = [];
  error_text = [];
}

abbrev failed : RunResult (Unit {0})
failed = record {
  status = success;
  exit_code = 1;
  maybe_reader = none;
  text_output = [];
  error_text = bytes "bc.capnp:2:3-5: error: Not defined";
}

abbrev reports : DiagnosticMap
reports = (parse (bytes "bc.capnp") failed.error_text []).1

reports_ne : reports ≢ []
unfolding parse is_space is_digit is_word find upsert atoi_from
reports_ne e = cc

Reach-mixed_example :
    OnlyFor (bytes "bc.capnp") reports
    × (find (bytes "a.capnp") reports ≡ none)
    × (t : Server) × Reach world both t
    × (t.tasks
        ≡ record { job = none; reply = none }
          ∷ waits compiled (job_of (bytes "/w/bc.capnp")) none
          ∷ [])
    × (t.handler.written ≡ notifications short_output workspace reports)
unfolding build_command command_args compiler_of strip_working_dir
Reach-mixed_example =
    Reach-mixed world {s = both} (job_of (bytes "/w/a.capnp")) (job_of (bytes "/w/bc.capnp")) none
      none _ _ succeeded failed refl refl refl refl refl refl reports_ne
      (λ e. omega (arith, ap length e))
