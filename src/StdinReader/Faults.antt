-- ===== src/StdinReader/Faults.antt =====
-- What the loop does on input that the well-behaved cases leave out.
use capnp_ls.Prelude.{
  ℕ, zero, suc, ◌<◌, ◌≤◌, ◌+◌, ◌%◌, Bytes, List, [], ◌++◌, ◌≡◌, ◌≢◌, refl, sym, some, none, arith,
  length, length-append, drop, drop_past, take_prefix, append_assoc, ap, ◌∙◌, map, strstr,
}
use capnp_ls.LspTypes.{lsp_content_length_header, lsp_header_delimiter}
use capnp_ls.StdinReader.{
  StdinReader, monitor_stdin, receive, compact, drain, parse_next_message, parse_found, cut_message,
  buffer_size, size_mod, digits_from,
}
use capnp_ls.StdinReader.Numbers.{AllDigits}
use capnp_ls.StdinReader.Frames.{text, Frame, framed, parse_next_message-framed_mod}
use capnp_ls.StdinReader.Streams.{texts, AllFrames}
use capnp_ls.StdinReader.Drain.{drain_past-texts}
use capnp_ls.StdinReader.Reads.{
  pending, IsReader, monitor_stdin-drain, receive_lem, current_pos_small,
}

-- A header whose length makes the size of the message wrap to 0 keeps the loop where it is.
parse_wraps :
    (buffer : Bytes) (current_pos pos : ℕ) (ds rest : Bytes)
    → AllDigits ds
    → ds ≢ []
    → 20 + length ds + digits_from 0 ds ≡ size_mod
    → drop pos buffer ≡ framed ds rest
    → parse_next_message buffer current_pos pos ≡ record { processed_size = pos; content = some [] }
unfolding cut_message
parse_wraps buffer current_pos pos ds rest all ne wraps e =
    parse_next_message-framed_mod buffer current_pos pos ds rest all ne (omega arith) e
    ∙ let nothing : (20 + length ds + digits_from 0 ds) % size_mod ≡ 0 = omega arith in
      ap (cut_message buffer current_pos pos) nothing ∙ ground arith

-- Where the header in front of the loop has a Content-Length for which the size of the message is
-- 2^64, no number of rounds ends the loop.
pub drain_hangs :
    (buffer : Bytes) (current_pos pos : ℕ) (ds rest : Bytes)
    → AllDigits ds
    → ds ≢ []
    → 20 + length ds + digits_from 0 ds ≡ size_mod
    → drop pos buffer ≡ framed ds rest
    → pos < current_pos
    → (fuel : ℕ) → drain fuel buffer current_pos pos ≡ none
unfolding drain
drain_hangs buffer current_pos pos ds rest all ne wraps e lt zero = refl
drain_hangs buffer current_pos pos ds rest all ne wraps e lt (suc fuel) = ground (
  arith,
  parse_wraps buffer current_pos pos ds rest all ne wraps e,
  drain_hangs buffer current_pos pos ds rest all ne wraps e lt fuel,
)

-- A header with no length, as the searches see it, stops the loop behind that header.
drain_skips :
    (buffer : Bytes) (current_pos stop : ℕ) (unread : Bytes) (header_end : ℕ)
    → drop stop buffer ≡ unread
    → strstr unread lsp_header_delimiter ≡ some header_end
    → strstr unread lsp_content_length_header ≡ none
    → stop < current_pos
    → (k : ℕ)
    → drain (suc k) buffer current_pos stop
      ≡ some (record { processed_pos = stop + header_end + 4; messages = [] })
unfolding drain parse_next_message parse_found
drain_skips buffer current_pos stop unread header_end e hd cl lt k = ground (
  arith,
  ap (λ t. strstr t lsp_header_delimiter) e,
  ap (λ t. strstr t lsp_content_length_header) e,
)

compact_beyond : (r : StdinReader) (pos : ℕ) → r.current_pos < pos → compact r pos ≡ r
unfolding compact
compact_beyond r pos lt = ground arith

module _ (r : StdinReader) (chunk : Bytes) (fs : List Frame) (piece stale : Bytes)
    (header_end : ℕ) where
  -- A read that completes frames and ends inside the next header, where the memory behind it still
  -- holds a delimiter and no "Content-Length: " can be read, hands the frames over and leaves them
  -- in the buffer, to be handed over again.
  pub monitor_stdin_repeats :
      (fuel : ℕ)
      → IsReader r
      → chunk ≢ []
      → r.current_pos + length chunk ≤ buffer_size
      → AllFrames fs
      → pending r ++ chunk ≡ texts fs ++ piece
      → drop (r.current_pos + length chunk) r.buffer ≡ stale
      → strstr (piece ++ stale) lsp_header_delimiter ≡ some header_end
      → length piece < header_end + 4
      → strstr (piece ++ stale) lsp_content_length_header ≡ none
      → 0 < length piece
      → length fs < fuel
      → (next : StdinReader) × (monitor_stdin fuel r chunk
          ≡ some (record { tasks = map some (map text fs); next = some next }))
        × (pending next ≡ texts fs ++ piece)
  monitor_stdin_repeats fuel v ne room h e st hd beyond cl pos f =
      let full = receive r chunk in
      let stop = length (texts fs) in
      let (filled', count) = receive_lem r chunk fs piece v e in
      let filled : full.buffer ≡ texts fs ++ (piece ++ stale) =
        filled' ∙ ap (λ s. texts fs ++ (piece ++ s)) st in
      let ends =
        drain_skips full.buffer full.current_pos stop (piece ++ stale) header_end
          (drop_past 0 stop full.buffer (texts fs) (piece ++ stale) filled (omega arith)) hd cl
          (omega arith) in
      let drained =
        drain_past-texts full.buffer full.current_pos (current_pos_small r chunk ne room).1
          (stop + header_end + 4) fs fuel 0 stop (piece ++ stale) ends h filled (omega arith)
          (omega arith) f in
      (
        full,
        monitor_stdin-drain fuel r chunk _ ne drained
            ∙ ap (λ n. some (record { tasks = map some (map text fs); next = some n }))
                (compact_beyond full (stop + header_end + 4) (omega arith)),
        take_prefix full.current_pos full.buffer (texts fs ++ piece) stale
            (filled ∙ sym (append_assoc (texts fs) piece stale))
            (omega (arith, length-append (texts fs) piece)),
      )
