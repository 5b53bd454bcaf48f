-- ===== src/StdinReader/Sample.antt =====
-- A reader and an input for the runs of the reader and of the server.
use capnp_ls.Prelude.{ℕ, zero, suc, ◌-◌, Bytes, bytes, [], ◌∷◌, ◌++◌, ◌≡◌, refl, arith, length}
use capnp_ls.StdinReader.{StdinReader, buffer_size, digits_from, is_digit}
use capnp_ls.StdinReader.Frames.{Frame, IsFrame, framed, text}
use capnp_ls.StdinReader.Streams.{empty, cut}
use capnp_ls.StdinReader.Reads.{IsReader}
use capnp_ls.StdinReader.Delivery.{Reads, end_of_input, read}

abbrev pub greeting : Frame
greeting = record { digits = bytes "2"; body = bytes "ab" }

abbrev pub answer : Frame
answer = record { digits = bytes "3"; body = bytes "xyz" }

pub greeting-IsFrame : IsFrame greeting
unfolding digits_from
greeting-IsFrame = record {
  length_digits = record {
    all_digits = unfold is_digit in (refl, tt);
    not_empty = λ p. cc;
    in_range = omega arith;
  };
  length_body = refl;
}

pub answer-IsFrame : IsFrame answer
unfolding digits_from
answer-IsFrame = record {
  length_digits = record {
    all_digits = unfold is_digit in (refl, tt);
    not_empty = λ p. cc;
    in_range = omega arith;
  };
  length_body = refl;
}

-- Memory that no test reads through.
pub zeros : ℕ → Bytes
zeros zero = []
zeros (suc n) = 0 ∷ zeros n

pub length-zeros : (n : ℕ) → length (zeros n) ≡ n
unfolding zeros
length-zeros zero = refl
length-zeros (suc n) = omega (arith, length-zeros n)

abbrev pub fresh : StdinReader
fresh = record { buffer = 0 ∷ 0 ∷ 0 ∷ zeros (buffer_size - 3); current_pos = 0 }

pub fresh-IsReader : IsReader fresh
fresh-IsReader = record {
  within = omega arith;
  capacity = omega (arith, length-zeros (buffer_size - 3));
}

abbrev pub first_read : Bytes
first_read = text greeting ++ framed (bytes "3") (bytes "x")

pub input-Reads : Reads [] (first_read ∷ bytes "yz" ∷ [] ∷ []) (greeting ∷ answer ∷ [])
unfolding framed digits_from
input-Reads =
    read (greeting ∷ []) (answer ∷ []) (framed (bytes "3") (bytes "x")) refl (λ p. cc) (omega arith)
      (greeting-IsFrame, tt)
      (cut (bytes "3") (bytes "x") answer-IsFrame.length_digits (omega arith) refl) refl
      (read (answer ∷ []) [] [] refl (λ p. cc) (omega arith) (answer-IsFrame, tt) empty refl
        (end_of_input refl))
