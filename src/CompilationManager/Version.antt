-- ===== src/CompilationManager/Version.antt =====
-- The version check against the versions that it means to accept.
use capnp_ls.Prelude.{
  ℕ, ◌^◌, ◌<◌, ◌≤◌, Bool, true, Option, none, some, [], ◌∷◌, ◌++◌, Bytes, ◌≡◌, ◌≢◌, ◌↔◌, ◌⊎◌, inl,
  inr, refl, ap, ◌∙◌, arith, Regex, class, many, seq, optional, capture, Groups, Rest, anywhere,
  match_regex, match_class, match_many, regex_search, group, AllIn, StopsAt, match-class,
  match-capture_some,
}
use capnp_ls.CompileErrorParser.{is_digit, is_byte, some_of, dash, ◌>>>◌, atoi, c_str}
use capnp_ls.CompilationManager.{
  version_name, version_numbers, version_regex, literal, dot, is_alnum, stoi, is_supported,
  read_version, is_compatible_output,
}

-- An expression that sets no group.
abbrev IsPlain : Regex → Type 0
IsPlain (class p) = Unit
IsPlain (many p) = Unit
IsPlain (seq a b) = IsPlain a × IsPlain b
IsPlain (optional a) = IsPlain a
IsPlain (capture n a) = ⊥

-- What is left to match fails, or finds these groups.
abbrev FindsOnly : Groups → Option Groups → Type 0
FindsOnly g o = (o ≡ none) ⊎ (o ≡ some g)

match_many-FindsOnly :
    (p : ℕ → Bool) (s : Bytes) (gs : Groups) (k : Rest) (g : Groups)
    → ((s' : Bytes) → FindsOnly g (k s' gs))
    → FindsOnly g (match_many p s gs k)
unfolding match_many
match_many-FindsOnly p [] gs k g h = h []
match_many-FindsOnly p (c ∷ cs) gs k g h =
    ground (arith, h (c ∷ cs), match_many-FindsOnly p cs gs k g h)

match_regex-FindsOnly :
    (r : Regex) (s : Bytes) (gs : Groups) (k : Rest) (g : Groups)
    → IsPlain r
    → ((s' : Bytes) → FindsOnly g (k s' gs))
    → FindsOnly g (match_regex r s gs k)
unfolding match_regex match_class
match_regex-FindsOnly (class p) [] gs k g m h = inl refl
match_regex-FindsOnly (class p) (c ∷ cs) gs k g m h = ground (arith, h cs)
match_regex-FindsOnly (many p) s gs k g m h = match_many-FindsOnly p s gs k g h
match_regex-FindsOnly (seq a b) s gs k g m h =
    match_regex-FindsOnly a s gs (λ s' gs'. match_regex b s' gs' k) g m.0
      (λ s'. match_regex-FindsOnly b s' gs k g m.1 h)
match_regex-FindsOnly (optional a) s gs k g m h =
    ground (arith, match_regex-FindsOnly a s gs k g m h, h s)
match_regex-FindsOnly (capture n a) s gs k g m h = absurd m

-- An option at the end of a search matches, whatever follows.
match-optional_plain :
    (a : Regex) (s : Bytes) (gs : Groups) (k : Rest) (g : Groups)
    → IsPlain a
    → ((s' : Bytes) → k s' gs ≡ some g)
    → match_regex (optional a) s gs k ≡ some g
unfolding match_regex
match-optional_plain a s gs k g m h =
    ground (arith, match_regex-FindsOnly a s gs k g m (λ s'. inr (h s')), h s)

match-literal :
    (cs s : Bytes) (r : Regex) (gs : Groups) (k : Rest)
    → match_regex (literal cs r) (cs ++ s) gs k ≡ match_regex r s gs k
match-literal [] s r gs k = refl
match-literal (c ∷ cs) s r gs k =
    match-class (is_byte c) c (cs ++ s) (literal cs r) gs k (ground arith)
    ∙ match-literal cs s r gs k

-- A version as the tool prints it: two numbers, and what follows them.
pub record Version : Type 0 where
  pub major : Bytes
  pub minor : Bytes
  pub rest : Bytes

abbrev pub output_of : Version → Bytes
output_of v = version_name ++ (v.major ++ (b'.' ∷ (v.minor ++ v.rest)))

abbrev pub NoNul : Bytes → Type 0
NoNul [] = Unit
NoNul (c ∷ cs) = (c ≢ 0) × NoNul cs

pub record IsVersion (v : Version) : Type 0 where
  pub major_digits : AllIn is_digit v.major
  pub major_ne_nil : v.major ≢ []
  pub minor_digits : AllIn is_digit v.minor
  pub minor_ne_nil : v.minor ≢ []
  pub rest_start : StopsAt is_digit v.rest
  pub rest_text : NoNul v.rest
  pub major_fits : atoi v.major < 2 ^ 31
  pub minor_fits : atoi v.minor < 2 ^ 31

NoNul-append : (s t : Bytes) → NoNul s → NoNul t → NoNul (s ++ t)
NoNul-append [] t h k = k
NoNul-append (c ∷ cs) t h k = (h.0, NoNul-append cs t h.1 k)

digits-NoNul : (ds t : Bytes) → AllIn is_digit ds → NoNul t → NoNul (ds ++ t)
unfolding is_digit
digits-NoNul [] t h k = k
digits-NoNul (d ∷ ds) t h k = (ground arith, digits-NoNul ds t h.1 k)

c_str-NoNul : (t : Bytes) → NoNul t → c_str t ≡ t
unfolding c_str
c_str-NoNul [] h = refl
c_str-NoNul (c ∷ cs) h = ground (arith, c_str-NoNul cs h.1)

match_tail :
    (s : Bytes) (gs : Groups)
    → match_regex
        (optional (dot >>> some_of is_digit) >>> optional (dash >>> some_of is_alnum))
        s
        gs
        anywhere
      ≡ some gs
unfolding match_regex
match_tail s gs =
    match-optional_plain (dot >>> some_of is_digit) s gs _ gs (tt, (tt, tt))
      (λ s'.
        match-optional_plain (dash >>> some_of is_alnum) s' gs anywhere gs (tt, (tt, tt))
          (λ s''. refl))

match_version :
    (v : Version)
    → IsVersion v
    → match_regex version_regex (output_of v) [] anywhere ≡ some ((2, v.minor) ∷ (1, v.major) ∷ [])
match_version v h =
    match-literal version_name (v.major ++ (b'.' ∷ (v.minor ++ v.rest))) version_numbers [] anywhere
    ∙ match-capture_some is_digit v.major (b'.' ∷ (v.minor ++ v.rest)) _ [] anywhere _ 1
        h.major_digits h.major_ne_nil (unfold is_digit in refl)
        (match-class (is_byte b'.') b'.' (v.minor ++ v.rest) _ _ anywhere refl
          ∙ match-capture_some is_digit v.minor v.rest _ _ anywhere _ 2 h.minor_digits
              h.minor_ne_nil h.rest_start (match_tail v.rest _))

regex_search-start :
    (r : Regex) (s : Bytes) (g : Groups)
    → match_regex r s [] anywhere ≡ some g
    → regex_search r s ≡ some g
unfolding regex_search
regex_search-start r [] g e = e
regex_search-start r (c ∷ cs) g e = ground arith

read_version_lem :
    (major minor : Bytes)
    → read_version (some ((2, minor) ∷ (1, major) ∷ [])) ≡ is_supported (stoi major) (stoi minor)
unfolding read_version group
read_version_lem major minor = refl

is_supported_iff :
    (major minor : Bytes)
    → atoi major < 2 ^ 31
    → atoi minor < 2 ^ 31
    → (is_supported (stoi major) (stoi minor) ≡ true)
      ↔ ((1 < atoi major) ⊎ ((atoi major ≡ 1) × (1 ≤ atoi minor)))
unfolding is_supported stoi
is_supported_iff major minor h k = ground arith

-- The text behind the first byte, which is what tells it from no output.
output_read :
    (v : Version)
    → is_compatible_output (output_of v)
      ≡ read_version (regex_search version_regex (c_str (output_of v)))
unfolding is_compatible_output
output_read v = refl

-- On an output that starts with a version whose two numbers fit an int, behind which no digit and
-- nowhere a NUL follows, the check accepts exactly version 1.1 and all later versions.
pub is_compatible_output_iff :
    (v : Version)
    → IsVersion v
    → (is_compatible_output (output_of v) ≡ true)
      ↔ ((1 < atoi v.major) ⊎ ((atoi v.major ≡ 1) × (1 ≤ atoi v.minor)))
is_compatible_output_iff v h =
    let text : NoNul (output_of v) = NoNul-append version_name _ (omega arith) (
      digits-NoNul v.major _ h.major_digits
        (omega arith, digits-NoNul v.minor v.rest h.minor_digits h.rest_text)) in
    let read : is_compatible_output (output_of v) ≡ is_supported (stoi v.major) (stoi v.minor) =
      output_read v
      ∙ ap (λ t. read_version (regex_search version_regex t)) (c_str-NoNul (output_of v) text)
      ∙ ap read_version (regex_search-start version_regex (output_of v) _ (match_version v h))
      ∙ read_version_lem v.major v.minor in
    rw read (is_supported_iff v.major v.minor h.major_fits h.minor_fits)
