-- ===== src/CompileErrorParser/Tests.antt =====
-- Runs of the parser on messages of the compiler, and its theorems at such messages.
use capnp_ls.Prelude.{Bytes, bytes, ◌≡◌, refl, [], ◌∷◌, ◌++◌, some, find, upsert, bytes_key, arith}
use capnp_ls.LspTypes.{error}
use capnp_ls.CompileErrorParser.{parse, is_space, is_digit, is_word, atoi_from}
use capnp_ls.CompileErrorParser.Messages.{Message, IsMessage}
use capnp_ls.CompileErrorParser.Lines.{held}
use capnp_ls.CompileErrorParser.Output.{IsPlain, output_of, diagnostics_for, parse-output_of}

abbrev output : Bytes
output = bytes "a.capnp:3:5-9: error: no: type" ++ (10 ∷ bytes "b.capnp:1:1: error: x")

parse_runs : parse (bytes "a.capnp") output [] ≡ (
  0,
  (
    bytes "a.capnp",
    record {
      range = record {
        start = record { line = 2; character = 4 };
        end = record { line = 2; character = 8 };
      };
      severity = error;
      message = bytes "no: type";
      source = bytes "capnp-compiler";
    }
        ∷ [],
  )
      ∷ [],
)
unfolding parse is_space is_digit is_word find upsert atoi_from
parse_runs = refl

abbrev here : Message
here = record {
  file = bytes "a.capnp";
  row = bytes "3";
  col = bytes "5";
  col_end = some (bytes "9");
  type = bytes "error";
  text = bytes "no: type";
}

here-IsMessage : IsMessage here
unfolding is_digit is_space
here-IsMessage = record {
  file_name = (refl, (refl, (refl, (refl, (refl, (refl, (refl, tt)))))));
  file_ne_nil = λ p. cc;
  file_start = refl;
  row = ((refl, tt), λ p. cc);
  col = ((refl, tt), λ p. cc);
  col_end = ((refl, tt), λ p. cc);
  type_name = (refl, (refl, (refl, (refl, (refl, tt)))));
  type_start = refl;
  text_line = (refl, (refl, (refl, (refl, (refl, (refl, (refl, (refl, tt))))))));
  text_start = refl;
}

here-IsPlain : IsPlain here
unfolding atoi_from
here-IsPlain = record {
  message = here-IsMessage;
  one_line = (
    refl,
    (
      refl,
      (
        refl,
        (
          refl,
          (
            refl,
            (
              refl,
              (
                refl,
                (
                  refl,
                  (
                    refl,
                    (
                      refl,
                      (
                        refl,
                        (
                          refl,
                          (
                            refl,
                            (
                              refl,
                              (
                                refl,
                                (
                                  refl,
                                  (
                                    refl,
                                    (
                                      refl,
                                      (
                                        refl,
                                        (
                                          refl,
                                          (
                                            refl,
                                            (
                                              refl,
                                              (
                                                refl,
                                                (
                                                  refl,
                                                  (
                                                    refl,
                                                    (refl, (refl, (refl, (refl, (refl, tt))))),
                                                  ),
                                                ),
                                              ),
                                            ),
                                          ),
                                        ),
                                      ),
                                    ),
                                  ),
                                ),
                              ),
                            ),
                          ),
                        ),
                      ),
                    ),
                  ),
                ),
              ),
            ),
          ),
        ),
      ),
    ),
  );
  row = omega arith;
  col = omega arith;
  last = omega arith;
}

parse-output_of_example :
    held (bytes "a.capnp") (parse (bytes "a.capnp") (output_of (here ∷ [])) []).1
    ≡ held (bytes "a.capnp") [] ++ diagnostics_for (bytes "a.capnp") (here ∷ [])
parse-output_of_example = parse-output_of (bytes "a.capnp") (here ∷ []) [] (here-IsPlain, tt)
