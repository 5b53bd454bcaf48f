-- ===== src/StdoutWriter/Framing.antt =====
-- What the client finds in the bytes that it is sent: it reads them as the server reads its input.
use capnp_ls.Prelude.{
  ℕ, ◌<◌, Bytes, List, [], ◌∷◌, ◌++◌, append-nil, append_assoc, length, length-map, map, take_all,
  some, ◌≡◌, refl, sym, ap, ap₂, ◌∙◌, subst, arith,
}
use capnp_ls.StdinReader.{drain, size_mod}
use capnp_ls.StdinReader.Frames.{Frame, text}
use capnp_ls.StdinReader.Streams.{texts, AllFrames, empty}
use capnp_ls.StdinReader.Drain.{drain-texts}
use capnp_ls.LspMessageHandler.Handlers.{World}
use capnp_ls.LspMessageHandler.Invariants.{PrintsLengths, AllFramed}
use capnp_ls.Server.Loop.{Server, Reach, started}
use capnp_ls.Server.Safety.{Reach-Writes}
use capnp_ls.StdoutWriter.{OutputStream, TakesAll, write, write_all}

-- The frames of framed texts.
frames_of : (ts : List Bytes) → AllFramed ts → (fs : List Frame) × AllFrames fs × (ts ≡ map text fs)
frames_of [] all = ([], tt, refl)
frames_of (t ∷ ts) ((f, frame, e), all) =
    let (fs, frames, es) = frames_of ts all in (f ∷ fs, (frame, frames), ap₂ ◌∷◌ e es)

write_whole :
    (stream : OutputStream) (message sent : Bytes)
    → TakesAll stream
    → write stream message sent ≡ sent ++ message
unfolding write
write_whole stream message sent whole =
    ap (λ t. sent ++ t) (take_all (stream.taken sent message) message (whole sent message))

write_all-texts :
    (stream : OutputStream) (fs : List Frame) (sent : Bytes)
    → TakesAll stream
    → write_all stream (map text fs) sent ≡ sent ++ texts fs
unfolding write_all
write_all-texts stream [] sent whole = sym (append-nil sent)
write_all-texts stream (f ∷ fs) sent whole =
    ap (write_all stream (map text fs)) (write_whole stream (text f) sent whole)
    ∙ write_all-texts stream fs (sent ++ text f) whole
    ∙ append_assoc sent (text f) (texts fs)

-- Framed messages that the stream takes at once are read one by one, in order.
drain-write_all :
    (stream : OutputStream) (messages : List Bytes) (fuel : ℕ)
    → TakesAll stream
    → AllFramed messages
    → length (write_all stream messages []) < size_mod
    → length messages < fuel
    → let sent = write_all stream messages [] in
      drain fuel sent (length sent) 0
      ≡ some (record { processed_pos = length sent; messages = messages })
drain-write_all stream messages fuel whole framed_all small enough =
    let (fs, frames, es) = frames_of messages framed_all in
    let sent : Bytes = write_all stream messages [] in
    let sent_is : sent ≡ texts fs =
      ap (λ ms. write_all stream ms []) es ∙ write_all-texts stream fs [] whole in
    drain-texts sent (length sent) small fs fuel [] [] frames empty
      (sent_is ∙ sym (append-nil (texts fs))) (omega (arith, ap length sent_is))
      (omega (arith, ap length es, length-map text fs))
    ∙ ap₂ (λ n ms. some (record { processed_pos = n; messages = ms })) (ap length (sym sent_is))
        (sym es)

-- Where numbers are printed in decimal and encoded values are not longer than size_t counts, the
-- stream takes every message at once, and fewer than 2^64 bytes were sent, the bytes that the
-- client is sent in any run from the start of the server, read as the server reads its own input
-- with fuel for more rounds than there are messages, are the messages that were written, each
-- whole and in order, with nothing left behind the last, whatever the order of messages, turns and
-- log lines.
pub drain-Reach :
    {Reader : Type 0} (world : World Reader) (stream : OutputStream) {t : Server} (fuel : ℕ)
    → PrintsLengths world.output
    → TakesAll stream
    → Reach world started t
    → length (write_all stream t.handler.written []) < size_mod
    → length t.handler.written < fuel
    → let sent = write_all stream t.handler.written [] in
      drain fuel sent (length sent) 0
      ≡ some (record { processed_pos = length sent; messages = t.handler.written })
drain-Reach world stream {t = t} fuel prints whole reached small enough =
    let (ts, e, all) = Reach-Writes world prints reached in
    drain-write_all stream t.handler.written fuel whole (subst AllFramed (sym e) all) small enough
