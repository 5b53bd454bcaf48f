-- ===== src/StdinReader/Bounds.antt =====
-- The buffer's bounds, the end of the loop, and the end of input.
use capnp_ls.Prelude.{
  ℕ, zero, suc, ◌<◌, ◌≤◌, ◌+◌, ◌-◌, Bytes, List, [], ◌∷◌, ◌≡◌, ◌≢◌, some, none, arith, length,
  Option, Bool-cases, ltb, ltb→lt, sym, ◌∙◌, subst, Option-cases, inl, inr,
}
use capnp_ls.StdinReader.{
  StdinReader, Drained, monitor_stdin, receive, compact, drain, parse_next_message, parse_found,
  cut_message, buffer_size,
}
use capnp_ls.StdinReader.Reads.{IsReader, receive-IsReader, compact-IsReader, monitor_stdin-drain}

-- A read that fits and does not end the input leaves the buffer within its bounds, whatever the
-- bytes.
pub monitor_stdin-IsReader :
    (fuel : ℕ) (r next : StdinReader) (chunk : Bytes) (tasks : List (Option Bytes))
    → IsReader r
    → r.current_pos + length chunk ≤ buffer_size
    → monitor_stdin fuel r chunk ≡ some (record { tasks = tasks; next = some next })
    → IsReader next
monitor_stdin-IsReader fuel r next [] tasks v room e = unfold monitor_stdin in cc
monitor_stdin-IsReader fuel r next (c ∷ cs) tasks v room e =
    elim (Option-cases
      (drain fuel (receive r (c ∷ cs)).buffer (receive r (c ∷ cs)).current_pos 0)) [
        | inl stuck ↦ unfold monitor_stdin in ground arith
        | inr (d, done) ↦
            let result = sym (monitor_stdin-drain fuel r (c ∷ cs) d (λ p. cc) done) ∙ e in
            let kept =
              compact-IsReader (receive r (c ∷ cs)) d.processed_pos
                (receive-IsReader r (c ∷ cs) v room) in
            let same : compact (receive r (c ∷ cs)) d.processed_pos ≡ next = cc in
            subst IsReader same kept
      ]

-- A size of 0 cuts the empty message, where it stands.
cut_message_advances :
    (buffer : Bytes) (current_pos pos total : ℕ) (m : Bytes)
    → (cut_message buffer current_pos pos total).content ≡ some m
    → cut_message buffer current_pos pos total ≢ record { processed_size = pos; content = some [] }
    → pos < (cut_message buffer current_pos pos total).processed_size
unfolding cut_message
cut_message_advances buffer current_pos pos zero m c ne = absurd (ne (ground arith))
cut_message_advances buffer current_pos pos (suc total) m c ne = ground arith

parse_found_advances :
    (buffer : Bytes) (current_pos pos : ℕ) (header_end content_length_str : Option ℕ) (m : Bytes)
    → (parse_found buffer current_pos pos header_end content_length_str).content ≡ some m
    → parse_found buffer current_pos pos header_end content_length_str
      ≢ record { processed_size = pos; content = some [] }
    → pos < (parse_found buffer current_pos pos header_end content_length_str).processed_size
unfolding parse_found
parse_found_advances buffer current_pos pos none c m e ne = cc
parse_found_advances buffer current_pos pos (some h) none m e ne = cc
parse_found_advances buffer current_pos pos (some h) (some c) m e ne =
    cut_message_advances buffer current_pos pos _ m e ne

parse_next_message_advances :
    (buffer : Bytes) (current_pos pos : ℕ) (m : Bytes)
    → (parse_next_message buffer current_pos pos).content ≡ some m
    → parse_next_message buffer current_pos pos ≢ record { processed_size = pos; content = some [] }
    → pos < (parse_next_message buffer current_pos pos).processed_size
unfolding parse_next_message
parse_next_message_advances buffer current_pos pos m =
    parse_found_advances buffer current_pos pos _ _ m

drain_round :
    (buffer : Bytes) (current_pos fuel pos : ℕ)
    → ((m : Bytes)
        → (parse_next_message buffer current_pos pos).content ≡ some m
        → pos < current_pos
        → (d : Drained) × (drain fuel buffer current_pos
              (parse_next_message buffer current_pos pos).processed_size
            ≡ some d))
    → (d : Drained) × (drain (suc fuel) buffer current_pos pos ≡ some d)
drain_round buffer current_pos fuel pos later = elim (Bool-cases (ltb pos current_pos)) [
  | inl more ↦ elim (Option-cases (parse_next_message buffer current_pos pos).content) [
    | inl nothing ↦ (
      record {
        processed_pos = (parse_next_message buffer current_pos pos).processed_size;
        messages = [];
      },
      unfold drain in ground arith,
    )
    | inr (m, got) ↦
        let (d, rest) = later m got (ltb→lt pos current_pos more) in
        (record d { messages = m ∷ d.messages }, unfold drain in ground arith)
  ]
  | inr done ↦ (record { processed_pos = pos; messages = [] }, unfold drain in ground arith)
]

-- Where no position of the buffer gives the empty message without moving on, the loop ends within
-- as many rounds as there are unread bytes, and one more.
pub drain_ends :
    (buffer : Bytes) (current_pos : ℕ)
    → ((p : ℕ)
        → parse_next_message buffer current_pos p
          ≢ record { processed_size = p; content = some [] })
    → (fuel pos : ℕ) → current_pos - pos < fuel
    → (d : Drained) × (drain fuel buffer current_pos pos ≡ some d)
drain_ends buffer current_pos ne zero pos lt = absurd (omega arith)
drain_ends buffer current_pos ne (suc fuel) pos lt =
    drain_round buffer current_pos fuel pos λ m got more.
      let moved = parse_next_message_advances buffer current_pos pos m got (ne pos) in
      drain_ends buffer current_pos ne fuel
        (parse_next_message buffer current_pos pos).processed_size (omega arith)
