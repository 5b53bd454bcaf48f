-- ===== src/StdinReader/Reads.antt =====
-- One read of `monitorStdin`: the bytes that wait in the buffer, and what the read does to them.
use capnp_ls.Prelude.{
  ℕ, ◌<◌, ◌≤◌, ◌+◌, ◌-◌, Bytes, List, [], ◌∷◌, ◌++◌, ◌≡◌, ◌≢◌, refl, sym, some, arith, length,
  length-append, length-take, drop_past, take_prefix, length-drop, take, drop, append_assoc, ap,
  ◌∙◌, map,
}
use capnp_ls.StdinReader.{
  StdinReader, Drained, monitor_stdin, receive, compact, drain, buffer_size, size_mod,
}
use capnp_ls.StdinReader.Frames.{text, Frame}
use capnp_ls.StdinReader.Streams.{texts, AllFrames, IsTail}
use capnp_ls.StdinReader.Drain.{drain-texts}

-- The bytes that were read and not yet handed over.
abbrev pub pending : StdinReader → Bytes
pending r = take r.current_pos r.buffer

pub record IsReader (r : StdinReader) : Type 0 where
  pub within : r.current_pos ≤ length r.buffer
  pub capacity : length r.buffer ≡ buffer_size

pub length-pending : (r : StdinReader) → IsReader r → length (pending r) ≡ r.current_pos
length-pending r v = omega (arith, length-take r.current_pos r.buffer, v.within)

pub receive-IsReader :
    (r : StdinReader) (chunk : Bytes)
    → IsReader r
    → r.current_pos + length chunk ≤ buffer_size
    → IsReader (receive r chunk)
unfolding receive
receive-IsReader r chunk v room =
    let whole : length (receive r chunk).buffer ≡ buffer_size = omega (
      arith,
      length-append (pending r) (chunk ++ drop (r.current_pos + length chunk) r.buffer),
      length-append chunk (drop (r.current_pos + length chunk) r.buffer),
      length-drop (r.current_pos + length chunk) r.buffer,
      length-pending r v,
      v.capacity,
    ) in
    record { within = omega (arith, whole); capacity = whole }

pub compact-IsReader : (r : StdinReader) (pos : ℕ) → IsReader r → IsReader (compact r pos)
unfolding compact
compact-IsReader r pos v =
    let left = r.current_pos - pos in
    ground (
      arith,
      v.capacity,
      length-append (take left (drop pos r.buffer)) (drop left r.buffer),
      length-take left (drop pos r.buffer),
      length-drop pos r.buffer,
      length-drop left r.buffer,
    )

-- What is left behind the messages that were handed over waits at the front of the buffer.
pub pending-compact :
    (r : StdinReader) (done tail stale : Bytes)
    → r.buffer ≡ done ++ (tail ++ stale)
    → r.current_pos ≡ length done + length tail
    → 0 < r.current_pos
    → pending (compact r (length done)) ≡ tail
unfolding compact
pending-compact r [] tail stale e c p =
    ground (arith, take_prefix r.current_pos r.buffer tail stale e (omega arith))
pending-compact r (x ∷ xs) [] stale e c p = ground arith
pending-compact r (x ∷ xs) (y ∷ ys) stale e c p =
    let done = x ∷ xs in
    let tail = y ∷ ys in
    let left = r.current_pos - length done in
    let unread = drop_past 0 (length done) r.buffer done (tail ++ stale) e (omega arith) in
    let kept = take_prefix left (drop (length done) r.buffer) tail stale unread (omega arith) in
    ground (
      arith,
      take_prefix left (take left (drop (length done) r.buffer) ++ drop left r.buffer) tail
          (drop left r.buffer) (ap (λ t. t ++ drop left r.buffer) kept) (omega arith),
    )

pub monitor_stdin-drain :
    (fuel : ℕ) (r : StdinReader) (chunk : Bytes) (d : Drained)
    → chunk ≢ []
    → drain fuel (receive r chunk).buffer (receive r chunk).current_pos 0 ≡ some d
    → monitor_stdin fuel r chunk
      ≡ some (record {
        tasks = map some d.messages;
        next = some (compact (receive r chunk) d.processed_pos);
      })
unfolding monitor_stdin
monitor_stdin-drain fuel r [] d ne e = absurd (ne refl)
monitor_stdin-drain fuel r (c ∷ cs) d ne e = ground arith

pub length-ne-nil : (chunk : Bytes) → chunk ≢ [] → 0 < length chunk
length-ne-nil [] ne = absurd (ne refl)
length-ne-nil (c ∷ cs) ne = omega arith

pub current_pos_small :
    (r : StdinReader) (chunk : Bytes)
    → chunk ≢ []
    → r.current_pos + length chunk ≤ buffer_size
    → (0 < (receive r chunk).current_pos) × ((receive r chunk).current_pos < size_mod)
unfolding receive
current_pos_small r chunk ne room = (omega (arith, length-ne-nil chunk ne), omega arith)

module _ (r : StdinReader) (chunk : Bytes) (fs : List Frame) (tail : Bytes) where
  -- What the buffer holds after a read that completes the frames `fs` and leaves `tail`.
  pub receive_lem :
      IsReader r
      → pending r ++ chunk ≡ texts fs ++ tail
      → ((receive r chunk).buffer
          ≡ texts fs ++ (tail ++ drop (r.current_pos + length chunk) r.buffer))
        × ((receive r chunk).current_pos ≡ length (texts fs) + length tail)
  unfolding receive
  receive_lem v e =
      let stale = drop (r.current_pos + length chunk) r.buffer in
      (
        sym (append_assoc (pending r) chunk stale)
            ∙ ap (λ t. t ++ stale) e
            ∙ append_assoc (texts fs) tail stale,
        omega (
          arith,
          ap length e,
          length-append (pending r) chunk,
          length-append (texts fs) tail,
          length-pending r v,
        ),
      )

module _ (r : StdinReader) (chunk : Bytes) (fs : List Frame) (tail : Bytes) where
  -- A read
  pub monitor_stdin-texts :
      (fuel : ℕ)
      → IsReader r
      → chunk ≢ []
      → r.current_pos + length chunk ≤ buffer_size
      → AllFrames fs
      → IsTail tail
      → pending r ++ chunk ≡ texts fs ++ tail
      → length fs < fuel
      → (next : StdinReader) × (monitor_stdin fuel r chunk
          ≡ some (record { tasks = map some (map text fs); next = some next }))
        × IsReader next
        × (pending next ≡ tail)
  monitor_stdin-texts fuel v ne room h t e f =
      let full = receive r chunk in
      let (filled, count) = receive_lem r chunk fs tail v e in
      let (some_bytes, small) = current_pos_small r chunk ne room in
      let stale = drop (r.current_pos + length chunk) r.buffer in
      (
        compact full (length (texts fs)),
        monitor_stdin-drain fuel r chunk _ ne
            (drain-texts full.buffer full.current_pos small fs fuel tail stale h t filled count f),
        compact-IsReader full (length (texts fs)) (receive-IsReader r chunk v room),
        pending-compact full (texts fs) tail stale filled count some_bytes,
      )
