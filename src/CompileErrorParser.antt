-- ===== src/CompileErrorParser.antt =====
-- compile_error_parser.cpp: the pattern of a compiler's message, the lines of its output and the
-- diagnostics that they give.
pub mod Lines
pub mod Messages
pub mod Output
mod Tests
use capnp_ls.Prelude.{
  ℕ, zero, suc, ◌+◌, ◌-◌, ◌*◌, ◌%◌, ◌^◌, Bool, true, false, not, ◌&&◌, ◌||◌, leb, ltb, ◌==◌,
  if◌then◌else◌, Option, none, some, List, [], ◌∷◌, ◌++◌, Bytes, bytes, same, Regex, class, many,
  seq, optional, capture, Groups, group, regex_match, match_regex, at_end, HashMap, find, upsert,
  bytes_key,
}
use capnp_ls.LspTypes.{Diagnostic, Range, Position, error}

abbrev pub u32_mod : ℕ
u32_mod = 2 ^ 32

-- \s, \d and \w
unfoldable pub is_space : ℕ → Bool
is_space c = c == 32 || (leb 9 c && leb c 13)

unfoldable pub is_digit : ℕ → Bool
is_digit c = leb 48 c && leb c 57

unfoldable pub is_word : ℕ → Bool
unfolding is_digit
is_word c = is_digit c || (leb b'a' c && leb c b'z') || (leb b'A' c && leb c b'Z') || c == b'_'

-- [^:], a byte, and the dot, which is not a line terminator
abbrev pub not_colon : ℕ → Bool
not_colon c = not (c == b':')

abbrev pub is_byte : ℕ → ℕ → Bool
is_byte b c = c == b

abbrev pub is_dot : ℕ → Bool
is_dot c = not (c == 10 || c == 13)

abbrev pub is_slash : ℕ → Bool
is_slash c = c == b'/' || c == 92

infixr 40 ◌>>>◌
abbrev pub ◌>>>◌ : Regex → Regex → Regex
a >>> b = seq a b

-- `p+`
abbrev pub some_of : (ℕ → Bool) → Regex
some_of p = class p >>> many p

abbrev pub colon : Regex
colon = class (is_byte b':')

abbrev pub dash : Regex
dash = class (is_byte b'-')

-- errorPattern
abbrev pub error_pattern : Regex
error_pattern =
    many is_space
    >>> capture 1 (optional (class is_word >>> colon >>> class is_slash) >>> some_of not_colon)
    >>> colon
    >>> capture 2 (some_of is_digit)
    >>> optional (dash >>> capture 3 (some_of is_digit))
    >>> optional (
        colon >>> capture 4 (some_of is_digit) >>> optional (dash >>> capture 5 (some_of is_digit)))
    >>> colon
    >>> many is_space
    >>> capture 6 (many not_colon)
    >>> colon
    >>> many is_space
    >>> capture 7 (many is_dot)
    >>> many is_space

-- The value that `atoi` reads from digits; it fits an int in every text that a compiler writes.
unfoldable pub atoi_from : ℕ → Bytes → ℕ
unfolding is_digit
atoi_from acc [] = acc
atoi_from acc (c ∷ cs) =
    let more = atoi_from (acc * 10 + (c - 48)) cs in if is_digit c then more else acc

abbrev pub atoi : Bytes → ℕ
atoi = atoi_from 0

-- `uint32_t n = atoi(text) - 1`
abbrev pub zero_based : Bytes → ℕ
zero_based text = (atoi text + (u32_mod - 1)) % u32_mod

-- A group that has to be there, and one that may be unmatched.
abbrev pub matched : Option Bytes → Bytes
matched none = []
matched (some text) = text

abbrev pub zero_based_or : Option Bytes → ℕ → ℕ
zero_based_or none n = n
zero_based_or (some text) n = zero_based text

abbrev pub DiagnosticMap : Type 0
DiagnosticMap = HashMap Bytes (List Diagnostic)

abbrev pub diagnostics_of : Option (List Diagnostic) → List Diagnostic
diagnostics_of none = []
diagnostics_of (some ds) = ds

-- `addDiagnostic`: `findOrCreate`, and `add` at the end. The type of the message is not kept.
unfoldable pub add_diagnostic :
    Bytes → ℕ → ℕ → ℕ → ℕ → Bytes → Bytes → DiagnosticMap → DiagnosticMap
add_diagnostic file row_start row_end col_start col_end type message diagnostic_map =
    let diagnostic : Diagnostic = record {
      range = record {
        start = record { line = row_start; character = col_start };
        end = record { line = row_end; character = col_end };
      };
      severity = error;
      message = message;
      source = bytes "capnp-compiler";
    } in
    upsert file (diagnostics_of (find file diagnostic_map) ++ (diagnostic ∷ [])) diagnostic_map

-- What the loop carries: `foundAny` and the map.
pub record Parsed : Type 0 where
  pub found_any : Bool
  pub diagnostic_map : DiagnosticMap

-- The branch for a line that matches and names the file.
unfoldable pub report : Bytes → Groups → Parsed → Parsed
report file gs p =
    let row_start = zero_based (matched (group 2 gs)) in
    let col_start = zero_based_or (group 4 gs) 0 in
    record {
      found_any = true;
      diagnostic_map =
          add_diagnostic file row_start (zero_based_or (group 3 gs) row_start) col_start
            (zero_based_or (group 5 gs) col_start) (matched (group 6 gs)) (matched (group 7 gs))
            p.diagnostic_map;
    }

unfoldable pub handle_match : Bytes → Option Groups → Parsed → Parsed
handle_match file_name none p = p
handle_match file_name (some gs) p =
    let file = matched (group 1 gs) in if same file file_name then report file gs p else p

-- `cStr()` as the match reads it: up to the first NUL.
unfoldable pub c_str : Bytes → Bytes
c_str [] = []
c_str (c ∷ cs) = let more = c_str cs in if c == 0 then [] else c ∷ more

-- One line of the output; an empty line is passed over.
unfoldable pub handle_line : Bytes → Bytes → Parsed → Parsed
handle_line file_name [] p = p
handle_line file_name (c ∷ cs) p =
    handle_match file_name (regex_match error_pattern (c_str (c ∷ cs))) p

-- The loop over the text; `line` is what was read of the current line.
unfoldable pub handle_lines : Bytes → Bytes → Bytes → Parsed → Parsed
handle_lines file_name line [] p = handle_line file_name line p
handle_lines file_name line (c ∷ cs) p =
    handle_lines file_name (if c == 10 then [] else line ++ (c ∷ [])) cs
      (if c == 10 then handle_line file_name line p else p)

-- `parse` returns 0 where it found a diagnostic, else 1.
unfoldable pub parse : Bytes → Bytes → DiagnosticMap → ℕ × DiagnosticMap
unfolding handle_lines handle_line handle_match report add_diagnostic group same c_str regex_match
    match_regex at_end
parse file_name error_text diagnostic_map =
    let p =
      handle_lines file_name [] error_text
        (record { found_any = false; diagnostic_map = diagnostic_map }) in
    (if p.found_any then 0 else 1, p.diagnostic_map)
