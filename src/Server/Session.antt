-- ===== src/Server/Session.antt =====
-- A whole session: the reads of StdinReader, the messages that each read begins, and between the reads
-- the other steps of the event loop.
use capnp_ls.Prelude.{
  ℕ, ◌<◌, length-append, [], ◌∷◌, ◌++◌, Bool, true, false, ◌||◌, Option, none, some, Bytes, List,
  length, ◌≡◌, refl, ap, ◌∙◌, arith,
}
use capnp_ls.StdinReader.{StdinReader, ReadResult, monitor_stdin, monitor_all}
use capnp_ls.StdinReader.Frames.{Frame}
use capnp_ls.StdinReader.Reads.{IsReader, pending, length-pending, monitor_stdin-texts}
use capnp_ls.StdinReader.Delivery.{Reads, end_of_input, read, tasks_of}
use capnp_ls.LspMessageHandler.Handlers.{World}
use capnp_ls.Server.Tasks.{begin_message}
use capnp_ls.Server.Loop.{Server, added, Step, receives, Reach, here, next}

-- What the reads of the chunks hand on, none behind the end of input.
abbrev handed : ℕ → Option StdinReader → List Bytes → Option (List (Option Bytes))
handed fuel none chunks = some []
handed fuel (some r) chunks = monitor_all fuel r chunks

monitor_stdin_end :
    (fuel : ℕ) (r : StdinReader)
    → monitor_stdin fuel r [] ≡ some (record { tasks = none ∷ []; next = none })
unfolding monitor_stdin
monitor_stdin_end fuel r = refl

-- The end of input is among the messages.
abbrev is_end : Option Bytes → Bool
is_end none = true
is_end (some message) = false

abbrev ends : List (Option Bytes) → Bool
ends [] = false
ends (message ∷ messages) = is_end message || ends messages

module _ {Reader : Type 0} (world : World Reader) where
  -- The loop of `monitorStdin` begins the messages of one read one behind the other, with no turn of a
  -- task between them.
  unfoldable pub begin_all : List (Option Bytes) → Server → Server
  unfolding added
  begin_all [] s = s
  begin_all (message ∷ messages) s =
      begin_all messages (added (begin_message world message s.handler) s)

  -- All steps but the start of a message, which is a read's.
  abbrev pub IsOwn : {s t : Server} → Step world s t → Type 0
  IsOwn (receives message e) = ⊥
  IsOwn _ = Unit

  -- From a reader, which is none behind the end of input, and a state, by the reads of these chunks,
  -- which begin these messages, and other steps between them. `fuel` is that of the loop of a read.
  -- These are more than the sessions of the code: one may go on where `run` was told to shut down.
  pub data Session (fuel : ℕ)
      : Option StdinReader → Server → List Bytes → List (Option Bytes) → Server → Type 0 where
    rests : {r : Option StdinReader} {s : Server} → Session fuel r s [] [] s
    reads :
        {r : StdinReader} {s t : Server} {chunk : Bytes} {chunks : List Bytes}
        {later : List (Option Bytes)} (result : ReadResult)
        → s.exited ≡ false
        → monitor_stdin fuel r chunk ≡ some result
        → Session fuel result.next (begin_all result.tasks s) chunks later t
        → Session fuel (some r) s (chunk ∷ chunks) (result.tasks ++ later) t
    moves :
        {r : Option StdinReader} {s u t : Server} {chunks : List Bytes}
        {messages : List (Option Bytes)} (step : Step world s u)
        → IsOwn step
        → Session fuel r u chunks messages t
        → Session fuel r s chunks messages t

  before-Reach : {s u t : Server} → Step world s u → Reach world u t → Reach world s t
  before-Reach step here = next here step
  before-Reach step (next r last) = next (before-Reach step r) last

  begin_all-Reach :
      (messages : List (Option Bytes)) (s : Server) {t : Server}
      → s.exited ≡ false
      → Reach world (begin_all messages s) t
      → Reach world s t
  unfolding begin_all added
  begin_all-Reach [] s e r = r
  begin_all-Reach (message ∷ messages) s e r =
      before-Reach (receives message e)
        (begin_all-Reach messages (added (begin_message world message s.handler) s) e r)

  -- A session is a run of the event loop.
  pub Session-Reach :
      {fuel : ℕ} {r : Option StdinReader} {s t : Server} {chunks : List Bytes}
      {messages : List (Option Bytes)}
      → Session fuel r s chunks messages t
      → Reach world s t
  Session-Reach rests = here
  Session-Reach {s = s} (reads result e m session) =
      begin_all-Reach result.tasks s e (Session-Reach session)
  Session-Reach (moves step own session) = before-Reach step (Session-Reach session)

  begin_all-exited :
      (messages : List (Option Bytes)) (s : Server) → (begin_all messages s).exited ≡ s.exited
  unfolding begin_all added
  begin_all-exited [] s = refl
  begin_all-exited (message ∷ messages) s =
      begin_all-exited messages (added (begin_message world message s.handler) s)

  -- There is a session that reads the whole of such an input.
  pub Reads-Session :
      {chunks : List Bytes} {fs : List Frame} {waiting : Bytes} (fuel : ℕ) (r : StdinReader)
      (s : Server)
      → s.exited ≡ false
      → IsReader r
      → pending r ≡ waiting
      → Reads waiting chunks fs
      → length fs < fuel
      → (messages : List (Option Bytes)) × (t : Server) × Session fuel (some r) s chunks messages t
  Reads-Session fuel r s goes_on v w (end_of_input e) f = (
    _,
    _,
    reads (record { tasks = none ∷ []; next = none }) goes_on (monitor_stdin_end fuel r) rests,
  )
  Reads-Session fuel r s goes_on v w
        (read {waiting = w0} {chunk = chunk} now later tail e ne room h t eq rest) f =
      let both = length-append now later in
      let (after_read, step, v', left) =
        monitor_stdin-texts r chunk now tail fuel v ne
          (omega (arith, ap length w, length-pending r v)) h t (ap (λ p. p ++ chunk) w ∙ eq)
          (omega (arith, ap length e, both)) in
      let result : ReadResult = record { tasks = tasks_of now; next = some after_read } in
      let (messages, u, session) =
        Reads-Session fuel after_read (begin_all result.tasks s)
          (begin_all-exited result.tasks s ∙ goes_on) v' left rest
          (omega (arith, ap length e, both)) in
      (_, _, reads result goes_on step session)
