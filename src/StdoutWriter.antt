-- ===== src/StdoutWriter.antt =====
-- stdout_writer.cpp: the bytes that messages put on standard output. The stream is kj's.
pub mod Framing
pub mod Cuts
mod Tests
use capnp_ls.Prelude.{ℕ, ◌≤◌, Bytes, List, [], ◌∷◌, ◌++◌, take, length}

-- AsyncOutputStream::write starts to write and returns a promise for the rest. All callers drop it,
-- which cancels what is left. `taken` is the number of bytes that went out before,
-- for the bytes that were sent earlier and the message.
pub record OutputStream : Type 0 where
  pub taken : Bytes → Bytes → ℕ

-- `write` and the drop of its promise: what was sent, with what the stream takes of the message.
unfoldable pub write : OutputStream → Bytes → Bytes → Bytes
write stream message sent = sent ++ take (stream.taken sent message) message

-- The writes that follow one another.
unfoldable pub write_all : OutputStream → List Bytes → Bytes → Bytes
unfolding write
write_all stream [] sent = sent
write_all stream (message ∷ messages) sent = write_all stream messages (write stream message sent)

-- The stream takes every message at once.
abbrev pub TakesAll : OutputStream → Type 0
TakesAll stream = (sent message : Bytes) → length message ≤ stream.taken sent message
