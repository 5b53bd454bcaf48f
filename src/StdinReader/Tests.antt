-- ===== src/StdinReader/Tests.antt =====
-- Runs of the reader on small inputs, and the theorems at such inputs.
use capnp_ls.Prelude.{
  ℕ, zero, suc, ◌-◌, Bytes, bytes, [], ◌∷◌, ◌++◌, ◌≡◌, ◌≢◌, refl, some, none, arith, strstr, ◌^◌,
}
use capnp_ls.LspTypes.{lsp_header_delimiter}
use capnp_ls.StdinReader.{
  StdinReader, Drained, monitor_stdin, monitor_all, drain, parse_next_message, strtoul, buffer_size,
  digits_from, is_digit, receive,
}
use capnp_ls.StdinReader.Frames.{Frame, framed, text}
use capnp_ls.StdinReader.Reads.{IsReader, pending}
use capnp_ls.StdinReader.Delivery.{monitor_all-Reads, tasks_of}
use capnp_ls.StdinReader.Faults.{drain_hangs, monitor_stdin_repeats}
use capnp_ls.StdinReader.Bounds.{drain_ends}
use capnp_ls.StdinReader.Sample.{
  greeting, answer, greeting-IsFrame, zeros, length-zeros, fresh, fresh-IsReader, first_read,
  input-Reads,
}

strtoul_runs :
    (strtoul (bytes " 42x") ≡ 42)
    × (strtoul (bytes "-1") ≡ 2 ^ 64 - 1)
    × (strtoul (bytes "99999999999999999999") ≡ 2 ^ 64 - 1)
unfolding strtoul is_digit
strtoul_runs = (refl, refl, refl)

-- A frame, a junk header and a frame: the loop stops behind the junk.
drain_runs :
    drain 5 (text greeting ++ (bytes "x" ++ lsp_header_delimiter)) 28 0
    ≡ some (record { processed_pos = 28; messages = text greeting ∷ [] })
unfolding drain parse_next_message strstr strtoul framed
drain_runs = refl

monitor_all-Reads_example :
    monitor_all 5 fresh (first_read ∷ bytes "yz" ∷ [] ∷ [])
    ≡ some (tasks_of (greeting ∷ answer ∷ []) ++ (none ∷ []))
monitor_all-Reads_example = monitor_all-Reads 5 fresh fresh-IsReader refl input-Reads (omega arith)

-- 2 ^ 64 - 40, in 20 digits
abbrev wrapping : Bytes
wrapping = bytes "18446744073709551576"

drain_hangs_example : drain 1000 (framed wrapping []) 40 0 ≡ none
drain_hangs_example =
    drain_hangs (framed wrapping []) 40 0 wrapping []
      (unfold is_digit in
        (
          refl,
          (
            refl,
            (
              refl,
              (
                refl,
                (
                  refl,
                  (
                    refl,
                    (
                      refl,
                      (
                        refl,
                        (
                          refl,
                          (
                            refl,
                            (
                              refl,
                              (
                                refl,
                                (refl, (refl, (refl, (refl, (refl, (refl, (refl, (refl, tt)))))))),
                              ),
                            ),
                          ),
                        ),
                      ),
                    ),
                  ),
                ),
              ),
            ),
          ),
        ))
      (λ p. cc) (unfold digits_from is_digit in omega arith) refl (omega arith) 1000

-- What an earlier, longer read left behind the bytes of the next one.
abbrev leftover : Bytes
leftover = bytes "th: 9" ++ (lsp_header_delimiter ++ (0 ∷ zeros (buffer_size - 44)))

abbrev used : StdinReader
used = record { buffer = bytes "0123456789012345678901234567890123" ++ leftover; current_pos = 0 }

used-IsReader : IsReader used
used-IsReader = record {
  within = omega arith;
  capacity = omega (arith, length-zeros (buffer_size - 44));
}

-- The second header is cut in its first word.
abbrev cut_read : Bytes
cut_read = text greeting ++ bytes "Content-Len"

monitor_stdin_repeats_example :
    (next : StdinReader) × (monitor_stdin 5 used cut_read
      ≡ some (record { tasks = some (text greeting) ∷ []; next = some next }))
    × (pending next ≡ cut_read)
unfolding framed strstr
monitor_stdin_repeats_example =
    monitor_stdin_repeats used cut_read (greeting ∷ []) (bytes "Content-Len") leftover 16 5
      used-IsReader (λ p. cc) (omega arith) (greeting-IsFrame, tt) refl refl refl (omega arith) refl
      (omega arith) (omega arith)

-- A body of as many bytes as the buffer has, in two parts: the first fills the buffer behind its
-- header.
first_part : Bytes
first_part = zeros (buffer_size - 27)

last_part : Bytes
last_part = 0 ∷ zeros 26

abbrev oversized : Frame
oversized = record { digits = bytes "1048576"; body = first_part ++ last_part }

abbrev after_junk : StdinReader
after_junk = receive fresh (bytes "ab")

junk_moves_on :
    (p : ℕ)
    → parse_next_message (97 ∷ lsp_header_delimiter) 5 p
      ≢ record { processed_size = p; content = some [] }
unfolding parse_next_message strstr
junk_moves_on zero e = cc
junk_moves_on (suc zero) e = cc
junk_moves_on (suc (suc zero)) e = cc
junk_moves_on (suc (suc (suc zero))) e = cc
junk_moves_on (suc (suc (suc (suc zero)))) e = cc
junk_moves_on (suc (suc (suc (suc (suc zero))))) e = cc
junk_moves_on (suc (suc (suc (suc (suc (suc p)))))) e = cc

drain_ends_example : (d : Drained) × (drain 6 (97 ∷ lsp_header_delimiter) 5 0 ≡ some d)
drain_ends_example = drain_ends (97 ∷ lsp_header_delimiter) 5 junk_moves_on 6 0 (omega arith)
