-- ===== src/CompileErrorParser/Output.antt =====
-- The output of the compiler, a message to a line, and the diagnostics that `parse` makes of it.
use capnp_ls.Prelude.{
  ℕ, ◌<◌, ◌≤◌, ◌-◌, Bool, false, not, ◌||◌, ◌==◌, if◌then◌else◌, none, some, List, [], ◌∷◌, ◌++◌,
  ◌≡◌, ◌≢◌, refl, sym, ap, subst, ◌∙◌, Bytes, bytes, arith, AllIn, regex_match, same, same_iff,
  same_refl, find-upsert, upsert, bytes_key, append_assoc, append-nil, Bool-cases, inl, inr, group,
}
use capnp_ls.LspTypes.{Diagnostic, error}
use capnp_ls.CompileErrorParser.{
  DiagnosticMap, Parsed, atoi, error_pattern, c_str, handle_line, handle_lines, handle_match,
  matched, report, add_diagnostic, parse, u32_mod,
}
use capnp_ls.CompileErrorParser.Messages.{
  Message, IsMessage, line_of, groups_of, regex_match-line_of,
}
use capnp_ls.CompileErrorParser.Lines.{held, handle_match_named, handle_match_other}

-- Neither NUL nor a newline.
abbrev pub is_plain : ℕ → Bool
is_plain c = not (c == 0 || c == 10)

abbrev pub InUnits : Bytes → Type 0
InUnits ds = (1 ≤ atoi ds) × (atoi ds < u32_mod)

abbrev pub last_col : Message → Bytes
last_col m = elim m.col_end [ none ↦ m.col | some ds ↦ ds ]

-- A message on one line, whose numbers count from 1 and fit uint32_t.
pub record IsPlain (m : Message) : Type 0 where
  pub message : IsMessage m
  pub one_line : AllIn is_plain (line_of m)
  pub row : InUnits m.row
  pub col : InUnits m.col
  pub last : InUnits (last_col m)

abbrev pub AllPlain : List Message → Type 0
AllPlain [] = Unit
AllPlain (m ∷ ms) = IsPlain m × AllPlain ms

abbrev pub output_of : List Message → Bytes
output_of [] = []
output_of (m ∷ ms) = line_of m ++ (10 ∷ output_of ms)

-- What a message means: an error on its row, from its first column to its last, counted from 0.
abbrev pub diagnostic_of : Message → Diagnostic
diagnostic_of m = record {
  range = record {
    start = record { line = atoi m.row - 1; character = atoi m.col - 1 };
    end = record { line = atoi m.row - 1; character = atoi (last_col m) - 1 };
  };
  severity = error;
  message = m.text;
  source = bytes "capnp-compiler";
}

-- The diagnostics of the messages that name the file.
abbrev pub diagnostics_for : Bytes → List Message → List Diagnostic
diagnostics_for file [] = []
diagnostics_for file (m ∷ ms) =
    if same m.file file then diagnostic_of m ∷ diagnostics_for file ms else diagnostics_for file ms

c_str-AllIn : (s : Bytes) → AllIn is_plain s → c_str s ≡ s
unfolding c_str
c_str-AllIn [] h = refl
c_str-AllIn (c ∷ cs) h = ground (arith, c_str-AllIn cs h.1)

-- A line is taken up to its newline.
handle_lines-AllIn :
    (file line s rest : Bytes) (p : Parsed)
    → AllIn is_plain s
    → handle_lines file line (s ++ (10 ∷ rest)) p
      ≡ handle_lines file [] rest (handle_line file (line ++ s) p)
unfolding handle_lines
handle_lines-AllIn file line [] rest p h = rw append-nil
handle_lines-AllIn file line (c ∷ cs) rest p h =
    ground (
      arith,
      handle_lines-AllIn file (line ++ (c ∷ [])) cs rest p h.1,
      append_assoc line (c ∷ []) cs,
    )

handle_line_lem :
    (file line : Bytes) (p : Parsed)
    → line ≢ []
    → handle_line file line p ≡ handle_match file (regex_match error_pattern (c_str line)) p
unfolding handle_line
handle_line_lem file [] p ne = absurd (ne refl)
handle_line_lem file (c ∷ cs) p ne = refl

append-ne-nil : (a b : Bytes) → a ≢ [] → a ++ b ≢ []
append-ne-nil [] b ne e = ne refl
append-ne-nil (x ∷ a) b ne e = cc

handle_line_message :
    (file : Bytes) (m : Message) (p : Parsed)
    → IsPlain m
    → handle_line file (line_of m) p ≡ handle_match file (some (groups_of m)) p
handle_line_message file m p h =
    handle_line_lem file (line_of m) p (append-ne-nil m.file _ h.message.file_ne_nil)
    ∙ ap (λ l. handle_match file (regex_match error_pattern l) p)
        (c_str-AllIn (line_of m) h.one_line)
    ∙ ap (λ g. handle_match file g p) (regex_match-line_of m h.message)

held-upsert :
    (file : Bytes) (ds : List Diagnostic) (m : DiagnosticMap) → held file (upsert file ds m) ≡ ds
held-upsert file ds m = rw find-upsert (rw same_refl)

held-report :
    (m : Message) (p : Parsed)
    → IsPlain m
    → held m.file (report m.file (groups_of m) p).diagnostic_map
      ≡ held m.file p.diagnostic_map ++ (diagnostic_of m ∷ [])
unfolding report add_diagnostic group
held-report m p h = rw held-upsert (ground arith)

file_group : (m : Message) → matched (group 1 (groups_of m)) ≡ m.file
unfolding group
file_group m = ground arith

-- One message, for the file or for another.
held-message :
    (file : Bytes) (m : Message) (ms : List Message) (p : Parsed)
    → IsPlain m
    → held file (handle_line file (line_of m) p).diagnostic_map ++ diagnostics_for file ms
      ≡ held file p.diagnostic_map ++ diagnostics_for file (m ∷ ms)
held-message file m ms p h =
    rw (handle_line_message file m p h) (elim (Bool-cases (same m.file file)) [
      | inl named ↦
          let e = (same_iff m.file file).0 named in
          rw named (
            rw
              (handle_match_named file (groups_of m) p
                (ap (λ f. same f file) (file_group m) ∙ named))
              (ap (λ l. l ++ diagnostics_for file ms)
                  (subst
                    (λ f.
                      held f (report f (groups_of m) p).diagnostic_map
                      ≡ held f p.diagnostic_map ++ (diagnostic_of m ∷ []))
                    e (held-report m p h))
                ∙ append_assoc (held file p.diagnostic_map) (diagnostic_of m ∷ [])
                    (diagnostics_for file ms)))
      | inr other ↦ rw other (
          rw (
            handle_match_other file (groups_of m) p (ap (λ f. same f file) (file_group m) ∙ other)))
    ])

held-output_of :
    (file : Bytes) (ms : List Message) (p : Parsed)
    → AllPlain ms
    → held file (handle_lines file [] (output_of ms) p).diagnostic_map
      ≡ held file p.diagnostic_map ++ diagnostics_for file ms
held-output_of file [] p h =
    unfold handle_lines handle_line in sym (append-nil (held file p.diagnostic_map))
held-output_of file (m ∷ ms) p h =
    ap (λ q. held file q.diagnostic_map)
      (handle_lines-AllIn file [] (line_of m) (output_of ms) p h.0.one_line)
    ∙ held-output_of file ms (handle_line file (line_of m) p) h.1
    ∙ held-message file m ms p h.0

-- Where the output of the compiler is plain messages, one to a line, the file gets the
-- diagnostics of the messages that name it, in order, behind those that it had.
pub parse-output_of :
    (file : Bytes) (ms : List Message) (m : DiagnosticMap)
    → AllPlain ms
    → held file (parse file (output_of ms) m).1 ≡ held file m ++ diagnostics_for file ms
unfolding parse
parse-output_of file ms m h =
    held-output_of file ms (record { found_any = false; diagnostic_map = m }) h
