-- ===== src/StdinReader/Frames.antt =====
-- Frames as the protocol writes them, and `parseNextMessage` at the start of one.
use capnp_ls.Prelude.{
  ℕ, ◌<◌, ◌≤◌, ◌+◌, ◌%◌, Bytes, [], ◌∷◌, ◌++◌, ◌≡◌, ◌≢◌, refl, none, some, arith, length, drop,
  length-append, take-length, Avoids, Avoids-append, strstr-Avoids, ap, ap₂, ◌∙◌, append_assoc,
  strstr,
}
use capnp_ls.LspTypes.{lsp_content_length_header, lsp_header_delimiter}
use capnp_ls.StdinReader.{
  parse_next_message, cut_message, parse_found, strtoul, digits_from, is_digit, size_mod,
}
use capnp_ls.StdinReader.Numbers.{AllDigits, strtoul_digits}

-- A header with the digits of a length, and what follows it.
unfoldable pub framed : Bytes → Bytes → Bytes
framed digits body = lsp_content_length_header ++ (digits ++ (lsp_header_delimiter ++ body))

-- The digits are those of a number below 2 ^ 64.
pub record IsLength (digits : Bytes) : Type 0 where
  pub all_digits : AllDigits digits
  pub not_empty : digits ≢ []
  pub in_range : 20 + length digits + digits_from 0 digits < size_mod

pub record Frame : Type 0 where
  pub digits : Bytes
  pub body : Bytes

abbrev pub text : Frame → Bytes
text f = framed f.digits f.body

-- The header gives the length of the body.
pub record IsFrame (f : Frame) : Type 0 where
  pub length_digits : IsLength f.digits
  pub length_body : digits_from 0 f.digits ≡ length f.body

digits-Avoids : (ds : Bytes) → AllDigits ds → Avoids 13 ds
unfolding is_digit
digits-Avoids [] h = tt
digits-Avoids (c ∷ cs) h = (ground arith, ground arith, digits-Avoids cs h.1)

pub length-framed : (ds body : Bytes) → length (framed ds body) ≡ 20 + length ds + length body
unfolding framed
length-framed ds body = omega (arith, length-append ds (lsp_header_delimiter ++ body))

pub framed-append : (ds a b : Bytes) → framed ds a ++ b ≡ framed ds (a ++ b)
unfolding framed
framed-append ds a b =
    ap (λ t. lsp_content_length_header ++ t) (append_assoc ds (lsp_header_delimiter ++ a) b)

pub header_end-framed :
    (ds rest : Bytes)
    → AllDigits ds
    → strstr (framed ds rest) lsp_header_delimiter ≡ some (16 + length ds)
unfolding framed
header_end-framed ds rest h =
    strstr-Avoids 13 (10 ∷ 13 ∷ 10 ∷ []) (lsp_content_length_header ++ ds) rest
      (Avoids-append 13 lsp_content_length_header ds (omega arith) (digits-Avoids ds h))
    ∙ ap some (omega arith)

content_length_str-framed :
    (ds rest : Bytes) → strstr (framed ds rest) lsp_content_length_header ≡ some 0
unfolding strstr framed
content_length_str-framed ds rest = refl

-- The digits of a header are read, and the size that they give wraps at 2 ^ 64.
pub parse_next_message-framed_mod :
    (buffer : Bytes) (current_pos pos : ℕ) (ds rest : Bytes)
    → AllDigits ds
    → ds ≢ []
    → digits_from 0 ds < size_mod
    → drop pos buffer ≡ framed ds rest
    → parse_next_message buffer current_pos pos
      ≡ cut_message buffer current_pos pos ((20 + length ds + digits_from 0 ds) % size_mod)
unfolding parse_next_message parse_found framed
parse_next_message-framed_mod buffer current_pos pos ds rest all ne lt e =
    ap₂ (parse_found buffer current_pos pos)
      (ap (λ t. strstr t lsp_header_delimiter) e ∙ header_end-framed ds rest all)
      (ap (λ t. strstr t lsp_content_length_header) e ∙ content_length_str-framed ds rest)
    ∙ ap (cut_message buffer current_pos pos) (
        ap (λ t. (16 + length ds + 4 + strtoul (drop 16 t)) % size_mod) e
        ∙ omega (arith, strtoul_digits ds (10 ∷ 13 ∷ 10 ∷ rest) all ne lt))

parse_next_message-framed :
    (buffer : Bytes) (current_pos pos : ℕ) (ds rest : Bytes)
    → IsLength ds
    → drop pos buffer ≡ framed ds rest
    → parse_next_message buffer current_pos pos
      ≡ cut_message buffer current_pos pos (20 + length ds + digits_from 0 ds)
parse_next_message-framed buffer current_pos pos ds rest h e =
    parse_next_message-framed_mod buffer current_pos pos ds rest h.all_digits h.not_empty
      (omega (arith, h.in_range)) e
    ∙ ap (cut_message buffer current_pos pos) (omega (arith, h.in_range))

module _ (buffer : Bytes) (current_pos pos : ℕ) (small : current_pos < size_mod) where
  -- A frame that the buffer holds whole is cut out of it.
  pub parse_next_message-text :
      (f : Frame) (rest : Bytes)
      → IsFrame f
      → drop pos buffer ≡ text f ++ rest
      → pos + length (text f) ≤ current_pos
      → parse_next_message buffer current_pos pos
        ≡ record { processed_size = pos + length (text f); content = some (text f) }
  unfolding cut_message
  parse_next_message-text f rest h e le =
      let size : 20 + length f.digits + digits_from 0 f.digits ≡ length (text f) =
        omega (arith, length-framed f.digits f.body, h.length_body) in
      parse_next_message-framed buffer current_pos pos f.digits (f.body ++ rest) h.length_digits
        (e ∙ framed-append f.digits f.body rest)
      ∙ rw (size, e, take-length (text f) rest) (ground arith)

  -- A frame whose header is there, and whose body is not yet all there, is left for the next read,
  -- whatever stands behind it in memory.
  pub parse_next_message_waits :
      (ds part stale : Bytes)
      → IsLength ds
      → drop pos buffer ≡ framed ds part ++ stale
      → current_pos ≡ pos + length (framed ds part)
      → length part < digits_from 0 ds
      → parse_next_message buffer current_pos pos ≡ record { processed_size = pos; content = none }
  unfolding cut_message
  parse_next_message_waits ds part stale h e at short =
      parse_next_message-framed buffer current_pos pos ds (part ++ stale) h
        (e ∙ framed-append ds part stale)
      ∙ ground (arith, length-framed ds part)
