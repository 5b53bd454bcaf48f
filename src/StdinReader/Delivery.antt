-- ===== src/StdinReader/Delivery.antt =====
-- What the handler is given over a whole input, however it is cut into reads.
use capnp_ls.Prelude.{
  ℕ, ◌<◌, ◌≤◌, ◌+◌, Bytes, List, [], ◌∷◌, ◌++◌, ◌≡◌, ◌≢◌, sym, some, none, Option, arith, length,
  length-append, map, map-append, append_assoc, ap, ◌∙◌,
}
use capnp_ls.StdinReader.{StdinReader, monitor_stdin, monitor_all, buffer_size}
use capnp_ls.StdinReader.Frames.{text, Frame}
use capnp_ls.StdinReader.Streams.{texts, AllFrames, IsTail}
use capnp_ls.StdinReader.Reads.{pending, IsReader, monitor_stdin-texts, length-pending}

-- The reads of an input: with `waiting` bytes in the buffer, the chunks complete the frames `fs`,
-- in order, and end in the end of input. Every read ends behind a frame, or behind a header.
pub data Reads : Bytes → List Bytes → List Frame → Type 0 where
  end_of_input : {waiting : Bytes} {fs : List Frame} → fs ≡ [] → Reads waiting ([] ∷ []) fs
  read :
      {waiting chunk : Bytes} {chunks : List Bytes} {fs : List Frame} (now later : List Frame)
      (tail : Bytes)
      → fs ≡ now ++ later
      → chunk ≢ []
      → length waiting + length chunk ≤ buffer_size
      → AllFrames now
      → IsTail tail
      → waiting ++ chunk ≡ texts now ++ tail
      → Reads tail chunks later
      → Reads waiting (chunk ∷ chunks) fs

-- What the handler is given for the frames.
abbrev pub tasks_of : List Frame → List (Option Bytes)
tasks_of fs = map some (map text fs)

tasks_of-append : (fs gs : List Frame) → tasks_of (fs ++ gs) ≡ tasks_of fs ++ tasks_of gs
tasks_of-append fs gs = simp map-append

monitor_all_step :
    (fuel : ℕ) (r next : StdinReader) (chunk : Bytes) (chunks : List Bytes)
    {now later : List (Option Bytes)}
    → monitor_stdin fuel r chunk ≡ some (record { tasks = now; next = some next })
    → monitor_all fuel next chunks ≡ some later
    → monitor_all fuel r (chunk ∷ chunks) ≡ some (now ++ later)
unfolding monitor_all
monitor_all_step fuel r next chunk chunks s t = ground arith

-- Where the input is a sequence of frames, no read leaves more in the buffer than it holds, and
-- every read ends behind a frame or inside a body whose header is there, the handler is given
-- every frame, each once and in order, and then the end of input, however the reads cut the
-- input.
pub monitor_all-Reads :
    {chunks : List Bytes} {fs : List Frame} {waiting : Bytes} (fuel : ℕ) (r : StdinReader)
    → IsReader r
    → pending r ≡ waiting
    → Reads waiting chunks fs
    → length fs < fuel
    → monitor_all fuel r chunks ≡ some (tasks_of fs ++ (none ∷ []))
unfolding monitor_all monitor_stdin
monitor_all-Reads fuel r v w (end_of_input e) f = rw e
monitor_all-Reads fuel r v w
      (read {waiting = w0} {chunk = chunk} {chunks = chunks} now later tail e ne room h t s rest)
      f =
    let size = ap length e in
    let both = length-append now later in
    let (next, step, v', left) =
      monitor_stdin-texts r chunk now tail fuel v ne
        (omega (arith, ap length w, length-pending r v)) h t (ap (λ p. p ++ chunk) w ∙ s)
        (omega (arith, size, both)) in
    let rest' = monitor_all-Reads fuel next v' left rest (omega (arith, size, both)) in
    let joined =
      sym (append_assoc (tasks_of now) (tasks_of later) (none ∷ []))
      ∙ ap (λ ts. ts ++ (none ∷ [])) (sym (ap tasks_of e ∙ tasks_of-append now later)) in
    monitor_all_step fuel r next chunk chunks step rest' ∙ ap some joined
