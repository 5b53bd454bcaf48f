-- ===== src/StdinReader.antt =====
-- stdin_reader.cpp: `strtoul` as it is used there, `parseNextMessage`, the loop of `monitorStdin`
-- over one read, and the read itself. The buffer's memory keeps what earlier reads left in it.
pub mod Numbers
pub mod Frames
pub mod Streams
pub mod Drain
pub mod Reads
pub mod Delivery
pub mod Faults
pub mod Bounds
pub mod Oversized
pub mod Sample
mod Tests
use mathlib.Core.Option
use capnp_ls.Prelude.{
  ℕ, zero, suc, ◌+◌, ◌-◌, ◌*◌, ◌%◌, ◌^◌, Bool, ◌&&◌, ◌||◌, ltb, leb, ◌==◌, if◌then◌else◌, Option,
  none, some, map, List, [], ◌∷◌, ◌++◌, Bytes, length, take, drop, strstr,
}
use capnp_ls.LspTypes.{
  lsp_content_length_header, lsp_content_length_header_size, lsp_header_delimiter,
  lsp_header_delimiter_size, lsp_content_length_radix,
}

abbrev pub buffer_size : ℕ
buffer_size = 2 ^ 20

abbrev pub size_mod : ℕ
size_mod = 2 ^ 64

-- isspace in the C locale
unfoldable pub is_space : ℕ → Bool
is_space c = c == 32 || (leb 9 c && leb c 13)

unfoldable pub is_digit : ℕ → Bool
is_digit c = leb 48 c && leb c 57

-- The digits that `strtoul` reads, with no bound.
unfoldable pub digits_from : ℕ → Bytes → ℕ
unfolding is_digit
digits_from acc [] = acc
digits_from acc (c ∷ cs) =
    let more = digits_from (acc * lsp_content_length_radix + (c - 48)) cs in
    if is_digit c then more else acc

-- A value over ULONG_MAX gives ULONG_MAX, whatever its sign.
unfoldable pub saturate : ℕ → ℕ
saturate n = if ltb n size_mod then n else size_mod - 1

-- The optional sign. The value behind a minus sign is negated in the unsigned type.
unfoldable pub signed : Bytes → ℕ
unfolding digits_from saturate
signed [] = 0
signed (c ∷ cs) =
    let n = digits_from 0 cs in
    if c == b'-'
    then (if ltb n size_mod then (size_mod - n) % size_mod else size_mod - 1)
    else if c == b'+'
    then saturate n
    else saturate (digits_from 0 (c ∷ cs))

-- `strtoul(text, nullptr, 10)`
unfoldable pub strtoul : Bytes → ℕ
unfolding is_space signed
strtoul [] = signed []
strtoul (c ∷ cs) = let skipped = strtoul cs in if is_space c then skipped else signed (c ∷ cs)

pub record ParsedMessage : Type 0 where
  pub processed_size : ℕ
  pub content : Option Bytes

-- `a - b` on size_t
abbrev pub sub_size : ℕ → ℕ → ℕ
sub_size a b = (a + size_mod - b) % size_mod

-- The rest of `parseNextMessage`, from the total size on.
unfoldable pub cut_message : Bytes → ℕ → ℕ → ℕ → ParsedMessage
cut_message buffer current_pos processed_pos total_message_size =
    if ltb (sub_size current_pos processed_pos) total_message_size
    then record { processed_size = processed_pos; content = none }
    else record {
      processed_size = processed_pos + total_message_size;
      content = some (take total_message_size (drop processed_pos buffer));
    }

-- `parseNextMessage` behind its two searches; `header_end` and `content_length_str` are the offsets
-- of what they find from `buffer + processedPos`.
unfoldable pub parse_found : Bytes → ℕ → ℕ → Option ℕ → Option ℕ → ParsedMessage
unfolding cut_message
parse_found buffer current_pos processed_pos none content_length_str = record {
  processed_size = processed_pos;
  content = none;
}
parse_found buffer current_pos processed_pos (some header_end) none = record {
  processed_size = processed_pos + header_end + lsp_header_delimiter_size;
  content = none;
}
parse_found buffer current_pos processed_pos (some header_end) (some content_length_str) =
    let content_length =
      strtoul
        (drop (content_length_str + lsp_content_length_header_size) (drop processed_pos buffer)) in
    let header_size = header_end + lsp_header_delimiter_size in
    cut_message buffer current_pos processed_pos ((header_size + content_length) % size_mod)

-- `parseNextMessage`. Both searches start at `buffer + processedPos`.
unfoldable pub parse_next_message : Bytes → ℕ → ℕ → ParsedMessage
unfolding parse_found
parse_next_message buffer current_pos processed_pos =
    let unread = drop processed_pos buffer in
    parse_found buffer current_pos processed_pos (strstr unread lsp_header_delimiter)
      (strstr unread lsp_content_length_header)

-- Where the loop stopped, and the messages that it gave to the handler.
pub record Drained : Type 0 where
  pub processed_pos : ℕ
  pub messages : List Bytes

unfoldable pub deliver : Bytes → Option Drained → Option Drained
deliver message none = none
deliver message (some d) = some (record d { messages = message ∷ d.messages })

-- `while (processedPos < currentPos)` on fuel; `none` means that the fuel ran out.
unfoldable pub drain : ℕ → Bytes → ℕ → ℕ → Option Drained
unfolding deliver
drain zero buffer current_pos processed_pos = none
drain (suc fuel) buffer current_pos processed_pos =
    let result = parse_next_message buffer current_pos processed_pos in
    let later = drain fuel buffer current_pos result.processed_size in
    if ltb processed_pos current_pos
    then (elim result.content [
      | some content ↦ deliver content later
      | none ↦ some (record { processed_pos = result.processed_size; messages = [] })
    ])
    else some (record { processed_pos = processed_pos; messages = [] })

pub record StdinReader : Type 0 where
  pub buffer : Bytes
  pub current_pos : ℕ

-- What follows the loop: move what is left to the front, or start over.
unfoldable pub compact : StdinReader → ℕ → StdinReader
compact r processed_pos =
    if ltb 0 processed_pos && ltb processed_pos r.current_pos
    then record {
      buffer =
          take (r.current_pos - processed_pos) (drop processed_pos r.buffer)
          ++ drop (r.current_pos - processed_pos) r.buffer;
      current_pos = r.current_pos - processed_pos;
    }
    else if processed_pos == r.current_pos
    then record r { current_pos = 0 }
    else r

-- `tryRead` writes at `buffer + currentPos`.
unfoldable pub receive : StdinReader → Bytes → StdinReader
receive r chunk = record {
  buffer = take r.current_pos r.buffer ++ (chunk ++ drop (r.current_pos + length chunk) r.buffer);
  current_pos = r.current_pos + length chunk;
}

-- What one read leads to: it hands `tasks` to the handler, where `none` is the end of input, and
-- the reader goes on unless `next` is none.
pub record ReadResult : Type 0 where
  pub tasks : List (Option Bytes)
  pub next : Option StdinReader

-- The body of `monitorStdin` behind `tryRead`, on the chunk that was read. `none` means that the
-- fuel of the loop ran out.
unfoldable pub monitor_stdin : ℕ → StdinReader → Bytes → Option ReadResult
unfolding receive compact
monitor_stdin fuel r [] = some (record { tasks = none ∷ []; next = none })
monitor_stdin fuel r (c ∷ cs) =
    let r' = receive r (c ∷ cs) in
    elim (drain fuel r'.buffer r'.current_pos 0) [
      | none ↦ none
      | some d ↦
          some (record { tasks = map some d.messages; next = some (compact r' d.processed_pos) })
    ]

-- `monitorStdin` over the reads that follow one another; an empty chunk is the end of input.
unfoldable pub monitor_all : ℕ → StdinReader → List Bytes → Option (List (Option Bytes))
monitor_all fuel r [] = some []
monitor_all fuel r (chunk ∷ chunks) = elim (monitor_stdin fuel r chunk) [
  | none ↦ none
  | some result ↦ elim result.next [
    | none ↦ some result.tasks
    | some r' ↦ Option.map (λ tasks. result.tasks ++ tasks) (monitor_all fuel r' chunks)
  ]
]
