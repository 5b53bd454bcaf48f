-- ===== src/CompileErrorParser/Messages.antt =====
-- The messages that the compiler writes, and what is read back from them.
use capnp_ls.Prelude.{
  false, Option, none, some, [], ◌∷◌, ◌++◌, ◌≡◌, ◌≢◌, refl, ◌∙◌, Bytes, arith, Groups, Rest,
  regex_match, match_regex, match_class, at_end, AllIn, StopsAt, StopsAt-append, append-nil, subst,
  Regex, match-many, match-capture_many, match-capture_some, match-capture_optional_some,
  match-optional, match-optional_none, match-seq_assoc, match-class, match-class_none, optional,
  capture, seq, class, many,
}
use capnp_ls.CompileErrorParser.{
  error_pattern, is_space, is_digit, is_word, not_colon, is_dot, is_slash, some_of, colon, dash,
  is_byte,
}

-- A location and a message, as the compiler writes them in front of and behind the colons.
pub record Message : Type 0 where
  pub file : Bytes
  pub row : Bytes
  pub col : Bytes
  pub col_end : Option Bytes
  pub type : Bytes
  pub text : Bytes

abbrev pub dashed : Option Bytes → Bytes
dashed none = []
dashed (some digits) = b'-' ∷ digits

-- file:row:col-col_end: type: text
abbrev pub line_of : Message → Bytes
line_of m =
    m.file
    ++ (b':'
        ∷ (m.row
            ++ (b':'
                ∷ (m.col ++ (dashed m.col_end ++ (b':' ∷ 32 ∷ (m.type ++ (b':' ∷ 32 ∷ m.text))))))))

abbrev pub IsNumber : Bytes → Type 0
IsNumber ds = AllIn is_digit ds × (ds ≢ [])

abbrev pub IsNumberOr : Option Bytes → Type 0
IsNumberOr none = Unit
IsNumberOr (some ds) = IsNumber ds

pub record IsMessage (m : Message) : Type 0 where
  pub file_name : AllIn not_colon m.file
  pub file_ne_nil : m.file ≢ []
  pub file_start : StopsAt is_space (m.file ++ (b':' ∷ []))
  pub row : IsNumber m.row
  pub col : IsNumber m.col
  pub col_end : IsNumberOr m.col_end
  pub type_name : AllIn not_colon m.type
  pub type_start : StopsAt is_space (m.type ++ (b':' ∷ []))
  pub text_line : AllIn is_dot m.text
  pub text_start : StopsAt is_space m.text

is_space_one : AllIn is_space (32 ∷ [])
unfolding is_space
is_space_one = (refl, tt)

match_text :
    (t : Bytes) (gs : Groups)
    → AllIn is_dot t
    → match_regex (seq (capture 7 (many is_dot)) (many is_space)) t gs at_end ≡ some ((7, t) ∷ gs)
match_text t gs h =
    subst
      (λ u.
        match_regex (seq (capture 7 (many is_dot)) (many is_space)) u gs at_end
        ≡ some ((7, t) ∷ gs))
      (append-nil t)
      (match-capture_many is_dot t [] (many is_space) gs at_end ((7, t) ∷ gs) 7 h tt
        (unfold match_regex at_end in refl))

-- Behind the position: the type and the text.
abbrev rest_pattern : Regex
rest_pattern = seq colon (
    seq (many is_space) (
      seq (capture 6 (many not_colon))
        (seq colon (seq (many is_space) (seq (capture 7 (many is_dot)) (many is_space))))))

match_rest :
    (m : Message) (gs : Groups)
    → IsMessage m
    → match_regex rest_pattern (b':' ∷ 32 ∷ (m.type ++ (b':' ∷ 32 ∷ m.text))) gs at_end
      ≡ some ((7, m.text) ∷ (6, m.type) ∷ gs)
match_rest m gs h =
    let found = (7, m.text) ∷ (6, m.type) ∷ gs in
    let behind = b':' ∷ 32 ∷ m.text in
    match-class (is_byte b':') b':' _ _ gs at_end refl
    ∙ match-many is_space (32 ∷ []) (m.type ++ behind) _ gs at_end found is_space_one
        (StopsAt-append is_space m.type (32 ∷ m.text) b':' h.type_start)
        (match-capture_many not_colon m.type behind _ gs at_end found 6 h.type_name refl (
          match-class (is_byte b':') b':' _ _ _ at_end refl
          ∙ match-many is_space (32 ∷ []) m.text _ ((6, m.type) ∷ gs) at_end found is_space_one
              h.text_start (match_text m.text ((6, m.type) ∷ gs) h.text_line)))

-- The groups of the columns.
abbrev pub col_end_group : Option Bytes → Groups → Groups
col_end_group none gs = gs
col_end_group (some ds) gs = (5, ds) ∷ gs

colon_not_digit : is_digit b':' ≡ false
unfolding is_digit
colon_not_digit = refl

match_col_end :
    (m : Message) (o : Option Bytes) (gs : Groups)
    → IsMessage m
    → IsNumberOr o
    → match_regex
        (seq (optional (seq dash (capture 5 (some_of is_digit)))) rest_pattern)
        (dashed o ++ (b':' ∷ 32 ∷ (m.type ++ (b':' ∷ 32 ∷ m.text))))
        gs
        at_end
      ≡ some ((7, m.text) ∷ (6, m.type) ∷ col_end_group o gs)
match_col_end m none gs h n =
    match-optional_none _ rest_pattern _ gs at_end _
      (match-seq_assoc dash _ rest_pattern _ gs at_end
        ∙ match-class_none (is_byte b'-') b':' _ _ gs at_end refl)
      (match_rest m gs h)
match_col_end m (some ds) gs h n = match-optional _ rest_pattern _ gs at_end _ (
    match-seq_assoc dash _ rest_pattern _ gs at_end
    ∙ match-class (is_byte b'-') b'-' _ _ gs at_end refl
    ∙ match-capture_some is_digit ds _ rest_pattern gs at_end _ 5 n.0 n.1 colon_not_digit
        (match_rest m ((5, ds) ∷ gs) h))

col_stop : (o : Option Bytes) (r : Bytes) → StopsAt is_digit (dashed o ++ (b':' ∷ r))
unfolding is_digit
col_stop none r = refl
col_stop (some ds) r = refl

no_drive :
    (file row rest : Bytes) (gs : Groups)
    → AllIn not_colon file
    → file ≢ []
    → IsNumber row
    → (k : Rest)
    → match_regex
        (seq (class is_word) (seq colon (class is_slash)))
        (file ++ (b':' ∷ (row ++ rest)))
        gs
        k
      ≡ none
unfolding match_regex match_class is_digit
no_drive [] row rest gs h ne n k = absurd (ne refl)
no_drive (c ∷ []) [] rest gs h ne n k = absurd (n.1 refl)
no_drive (c ∷ []) (d ∷ ds) rest gs h ne n k = ground arith
no_drive (c ∷ d ∷ file) row rest gs h ne n k = ground arith

abbrev pub groups_of : Message → Groups
groups_of m =
    (7, m.text) ∷ (6, m.type) ∷ col_end_group m.col_end ((4, m.col) ∷ (2, m.row) ∷ (1, m.file) ∷ [])

match_position :
    (m : Message) (gs : Groups)
    → IsMessage m
    → match_regex
        (seq colon (
          seq (capture 2 (some_of is_digit)) (
            seq (optional (seq dash (capture 3 (some_of is_digit)))) (
              seq
                (optional (
                  seq colon (
                    seq
                      (capture 4 (some_of is_digit))
                      (optional (seq dash (capture 5 (some_of is_digit)))))))
                rest_pattern))))
        (b':'
          ∷ (m.row
              ++ (b':'
                  ∷ (m.col
                      ++ (dashed m.col_end ++ (b':' ∷ 32 ∷ (m.type ++ (b':' ∷ 32 ∷ m.text))))))))
        gs
        at_end
      ≡ some ((7, m.text) ∷ (6, m.type) ∷ col_end_group m.col_end ((4, m.col) ∷ (2, m.row) ∷ gs))
match_position m gs h =
    let found =
      (7, m.text) ∷ (6, m.type) ∷ col_end_group m.col_end ((4, m.col) ∷ (2, m.row) ∷ gs) in
    match-class (is_byte b':') b':' _ _ gs at_end refl
    ∙ match-capture_some is_digit m.row _ _ gs at_end found 2 h.row.0 h.row.1 colon_not_digit (
        match-optional_none _ _ _ ((2, m.row) ∷ gs) at_end found
          (match-seq_assoc dash _ _ _ _ at_end
            ∙ match-class_none (is_byte b'-') b':' _ _ _ at_end refl)
          (match-optional _ rest_pattern _ _ at_end found (
            match-seq_assoc colon _ rest_pattern _ _ at_end
            ∙ match-class (is_byte b':') b':' _ _ _ at_end refl
            ∙ match-seq_assoc _ _ rest_pattern _ _ at_end
            ∙ match-capture_some is_digit m.col _ _ _ at_end found 4 h.col.0 h.col.1
                (col_stop m.col_end _) (match_col_end m m.col_end _ h h.col_end))))

-- A message in the form in which the compiler writes it matches, and its parts are the groups.
pub regex_match-line_of :
    (m : Message) → IsMessage m → regex_match error_pattern (line_of m) ≡ some (groups_of m)
unfolding regex_match
regex_match-line_of m h =
    match-many is_space [] (line_of m) _ [] at_end (groups_of m) tt
      (StopsAt-append is_space m.file _ b':' h.file_start)
      (match-capture_optional_some not_colon m.file _ _ [] at_end (groups_of m) 1 _
        (no_drive m.file m.row _ [] h.file_name h.file_ne_nil h.row) h.file_name h.file_ne_nil refl
        (match_position m ((1, m.file) ∷ []) h))
