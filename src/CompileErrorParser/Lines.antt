-- ===== src/CompileErrorParser/Lines.antt =====
-- What `parse` does to the map, whatever the text: it adds reports for the file, and nothing else.
use capnp_ls.Prelude.{
  ℕ, ◌<◌, Bool, true, false, ◌||◌, ◌==◌, if◌then◌else◌, Option, none, some, List, [], ◌∷◌, ◌++◌,
  ◌≡◌, ◌≢◌, refl, sym, ap, ◌∙◌, Bytes, bytes, arith, same, same_iff, same_refl, subst, Bool-cases,
  inl, inr, Groups, group, regex_match, find, bytes_key, find-upsert, append_assoc, append-nil,
}
use capnp_ls.LspTypes.{Diagnostic, Position, error}
use capnp_ls.CompileErrorParser.{
  DiagnosticMap, Parsed, diagnostics_of, add_diagnostic, report, handle_match, handle_line,
  handle_lines, parse, u32_mod, matched, zero_based, zero_based_or, error_pattern, c_str,
}

abbrev InRange : Position → Type 0
InRange p = (p.line < u32_mod) × (p.character < u32_mod)

-- A diagnostic of the compiler: an error, with positions that fit uint32_t.
pub record IsReport (d : Diagnostic) : Type 0 where
  pub severity : d.severity ≡ error
  pub source : d.source ≡ bytes "capnp-compiler"
  pub start : InRange d.range.start
  pub end : InRange d.range.end

abbrev pub AllReports : List Diagnostic → Type 0
AllReports [] = Unit
AllReports (d ∷ ds) = IsReport d × AllReports ds

pub AllReports-append :
    (ds es : List Diagnostic) → AllReports ds → AllReports es → AllReports (ds ++ es)
AllReports-append [] es h k = k
AllReports-append (d ∷ ds) es h k = (h.0, AllReports-append ds es h.1 k)

abbrev pub is_some_report : List Diagnostic → Bool
is_some_report [] = false
is_some_report (d ∷ ds) = true

is_some_report-append :
    (ds es : List Diagnostic) → is_some_report (ds ++ es) ≡ (is_some_report ds || is_some_report es)
is_some_report-append [] es = refl
is_some_report-append (d ∷ ds) es = refl

-- The diagnostics that a map holds for a file.
abbrev pub held : Bytes → DiagnosticMap → List Diagnostic
held file m = diagnostics_of (find file m)

-- From `before` to `after`, `added` was added for the file.
pub record Adds (file : Bytes) (added : List Diagnostic) (before after : DiagnosticMap)
    : Type 0 where
  pub own : held file after ≡ held file before ++ added
  pub others : (j : Bytes) → j ≢ file → find j after ≡ find j before
  pub reports : AllReports added

record Extends (file : Bytes) (added : List Diagnostic) (p q : Parsed) : Type 0 where
  adds : Adds file added p.diagnostic_map q.diagnostic_map
  found : q.found_any ≡ (p.found_any || is_some_report added)

Extends-refl : (file : Bytes) (p : Parsed) → Extends file [] p p
Extends-refl file p = record {
  adds = record { own = sym (append-nil _); others = λ j ne. refl; reports = tt };
  found = ground arith;
}

Extends-trans :
    (file : Bytes) (xs ys : List Diagnostic) (p q r : Parsed)
    → Extends file xs p q
    → Extends file ys q r
    → Extends file (xs ++ ys) p r
Extends-trans file xs ys p q r h k = record {
  adds = record {
    own =
        k.adds.own ∙ ap (λ l. l ++ ys) h.adds.own ∙ append_assoc (held file p.diagnostic_map) xs ys;
    others = λ j ne. k.adds.others j ne ∙ h.adds.others j ne;
    reports = AllReports-append xs ys h.adds.reports k.adds.reports;
  };
  found = ground (arith, h.found, k.found, is_some_report-append xs ys);
}

add_diagnostic_lem :
    (file : Bytes) (row_start row_end col_start col_end : ℕ) (type message : Bytes)
    (m : DiagnosticMap)
    → row_start < u32_mod
    → row_end < u32_mod
    → col_start < u32_mod
    → col_end < u32_mod
    → (d : Diagnostic) × Adds file
        (d ∷ [])
        m
        (add_diagnostic file row_start row_end col_start col_end type message m)
unfolding add_diagnostic
add_diagnostic_lem file row_start row_end col_start col_end type message m a b c d = (
  record {
    range = record {
      start = record { line = row_start; character = col_start };
      end = record { line = row_end; character = col_end };
    };
    severity = error;
    message = message;
    source = bytes "capnp-compiler";
  },
  record {
    own = rw find-upsert (rw same_refl);
    others = λ j ne. find-upsert file j _ m ∙ ground (arith, same_iff file j);
    reports = (record { severity = refl; source = refl; start = (a, c); end = (b, d) }, tt);
  },
)

zero_based_or-lt : (o : Option Bytes) (n : ℕ) → n < u32_mod → zero_based_or o n < u32_mod
zero_based_or-lt none n h = h
zero_based_or-lt (some t) n h = omega arith

report-Extends :
    (file : Bytes) (gs : Groups) (p : Parsed)
    → (added : List Diagnostic) × Extends file added p (report file gs p)
unfolding report
report-Extends file gs p =
    let row_start = zero_based (matched (group 2 gs)) in
    let row_lt : row_start < u32_mod = omega arith in
    let col_lt = zero_based_or-lt (group 4 gs) 0 (omega arith) in
    let (d, adds) =
      add_diagnostic_lem file row_start _ (zero_based_or (group 4 gs) 0) _ (matched (group 6 gs))
        (matched (group 7 gs)) p.diagnostic_map row_lt
        (zero_based_or-lt (group 3 gs) row_start row_lt) col_lt
        (zero_based_or-lt (group 5 gs) _ col_lt) in
    (d ∷ [], record { adds = adds; found = ground arith })

pub handle_match_named :
    (file : Bytes) (gs : Groups) (p : Parsed)
    → same (matched (group 1 gs)) file ≡ true
    → handle_match file (some gs) p ≡ report file gs p
unfolding handle_match
handle_match_named file gs p named = ground (arith, same_iff (matched (group 1 gs)) file)

pub handle_match_other :
    (file : Bytes) (gs : Groups) (p : Parsed)
    → same (matched (group 1 gs)) file ≡ false
    → handle_match file (some gs) p ≡ p
unfolding handle_match
handle_match_other file gs p other = ground arith

handle_match-Extends :
    (file : Bytes) (m : Option Groups) (p : Parsed)
    → (added : List Diagnostic) × Extends file added p (handle_match file m p)
handle_match-Extends file none p = ([], unfold handle_match in Extends-refl file p)
handle_match-Extends file (some gs) p = elim (Bool-cases (same (matched (group 1 gs)) file)) [
  | inl named ↦
      subst (λ q. (added : List Diagnostic) × Extends file added p q)
        (sym (handle_match_named file gs p named)) (report-Extends file gs p)
  | inr other ↦ (
    [],
    subst (Extends file [] p) (sym (handle_match_other file gs p other)) (Extends-refl file p),
  )
]

handle_line-Extends :
    (file line : Bytes) (p : Parsed)
    → (added : List Diagnostic) × Extends file added p (handle_line file line p)
unfolding handle_line
handle_line-Extends file [] p = ([], Extends-refl file p)
handle_line-Extends file (c ∷ cs) p =
    handle_match-Extends file (regex_match error_pattern (c_str (c ∷ cs))) p

handle_lines-Extends :
    (file line text : Bytes) (p : Parsed)
    → (added : List Diagnostic) × Extends file added p (handle_lines file line text p)
unfolding handle_lines
handle_lines-Extends file line [] p = handle_line-Extends file line p
handle_lines-Extends file line (c ∷ cs) p = elim (Bool-cases (c == 10)) [
  | inl new_line ↦
      let (xs, h) = handle_line-Extends file line p in
      let (ys, k) = handle_lines-Extends file [] cs (handle_line file line p) in
      rw new_line (xs ++ ys, Extends-trans file xs ys p _ _ h k)
  | inr in_line ↦ rw in_line (handle_lines-Extends file (line ++ (c ∷ [])) cs p)
]

-- Whatever the text, `parse` adds reports to what the map holds for the file, leaves every other
-- file alone, and returns 0 exactly if it added one.
pub parse_lem :
    (file text : Bytes) (m : DiagnosticMap)
    → (added : List Diagnostic) × Adds file added m (parse file text m).1
      × ((parse file text m).0 ≡ (if is_some_report added then 0 else 1))
unfolding parse
parse_lem file text m =
    let (added, h) =
      handle_lines-Extends file [] text (record { found_any = false; diagnostic_map = m }) in
    (added, h.adds, ground (arith, h.found))
