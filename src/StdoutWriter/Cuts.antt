-- ===== src/StdoutWriter/Cuts.antt =====
-- A message that the stream does not take at once: the rest of it is never sent.
use capnp_ls.Prelude.{
  ℕ, ◌<◌, ◌≤◌, ◌+◌, ◌-◌, Bytes, [], ◌∷◌, ◌++◌, append_assoc, length, length-append, length-take,
  take, take_all, take-append, take-append-drop, drop, some, ◌≡◌, sym, ap, ap₂, ◌∙◌, arith,
}
use capnp_ls.StdinReader.{parse_next_message, size_mod}
use capnp_ls.StdinReader.Frames.{
  Frame, IsFrame, framed, text, framed-append, length-framed, parse_next_message-text,
}
use capnp_ls.StdoutWriter.{OutputStream, write, write_all}

-- A part of a frame that holds the header is the header and a part of the body.
take-framed :
    (ds body : Bytes) (j : ℕ) → take (20 + length ds + j) (framed ds body) ≡ framed ds (take j body)
take-framed ds body j =
    let size : 20 + length ds + j ≡ length (framed ds []) + j =
      omega (arith, length-framed ds []) in
    ap₂ take size (sym (framed-append ds [] body))
    ∙ take-append j (framed ds []) body
    ∙ framed-append ds [] (take j body)

write_cut :
    (stream : OutputStream) (f : Frame) (next : Bytes) (j : ℕ)
    → stream.taken [] (text f) ≡ 20 + length f.digits + j
    → length next ≤ stream.taken (framed f.digits (take j f.body)) next
    → write_all stream (text f ∷ next ∷ []) [] ≡ framed f.digits (take j f.body ++ next)
unfolding write_all write
write_cut stream f next j t w =
    let sent : take (stream.taken [] (text f)) (text f) ≡ framed f.digits (take j f.body) =
      ap (λ n. take n (text f)) t ∙ take-framed f.digits f.body j in
    ap (λ s. s ++ take (stream.taken s next) next) sent
    ∙ ap (λ n. framed f.digits (take j f.body) ++ n)
        (take_all (stream.taken (framed f.digits (take j f.body)) next) next w)
    ∙ framed-append f.digits (take j f.body) next

-- Where the stream takes the header of a frame and less than its whole body, and the whole of the
-- next message, which has at least as many bytes as the first lacks, and both are fewer than 2^64
-- bytes, the client that reads as the server reads its own input finds a message with the header
-- of the first, the part of its body that was sent, and then the start of the second.
pub parse_next_message-cut :
    (stream : OutputStream) (f : Frame) (next : Bytes) (j : ℕ)
    → IsFrame f
    → stream.taken [] (text f) ≡ 20 + length f.digits + j
    → length next ≤ stream.taken (framed f.digits (take j f.body)) next
    → j < length f.body
    → length f.body ≤ j + length next
    → 20 + length f.digits + j + length next < size_mod
    → let sent = write_all stream (text f ∷ next ∷ []) [] in
      parse_next_message sent (length sent) 0 ≡ record {
        processed_size = length (text f);
        content = some (framed f.digits (take j f.body ++ take (length f.body - j) next));
      }
parse_next_message-cut stream f next j frame t w short enough small =
    let rest = length f.body - j in
    let g : Frame = record { digits = f.digits; body = take j f.body ++ take rest next } in
    let size : length g.body ≡ length f.body = omega (
      arith,
      length-append (take j f.body) (take rest next),
      length-take j f.body,
      length-take rest next,
    ) in
    let sent = write_all stream (text f ∷ next ∷ []) [] in
    let sent_is : sent ≡ text g ++ drop rest next =
      write_cut stream f next j t w
      ∙ ap (λ n. framed f.digits (take j f.body ++ n)) (sym (take-append-drop rest next))
      ∙ ap (framed f.digits) (sym (append_assoc (take j f.body) (take rest next) (drop rest next)))
      ∙ sym (framed-append f.digits g.body (drop rest next)) in
    let total : length sent ≡ 20 + length f.digits + j + length next =
      ap length (write_cut stream f next j t w)
      ∙ omega (
        arith,
        length-framed f.digits (take j f.body ++ next),
        length-append (take j f.body) next,
        length-take j f.body,
        short,
      ) in
    let size_g = length-framed f.digits g.body in
    let size_f = length-framed f.digits f.body in
    parse_next_message-text sent (length sent) 0 (omega (arith, total, small)) g (drop rest next)
      (record { length_digits = frame.length_digits; length_body = frame.length_body ∙ sym size })
      sent_is (omega (arith, total, size, size_g, enough))
    ∙ ap (λ n. record { processed_size = n; content = some (text g) })
        (omega (arith, size, size_g, size_f))
