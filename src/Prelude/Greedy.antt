-- ===== src/Prelude/Greedy.antt =====
-- Matches in which every repetition takes all that it can.
use Prim.Native.Nat.{ℕ, ◌-◌}
use mathlib.Core.Path.{◌≡◌, refl, ap, ◌∙◌}
use mathlib.Core.Logic.{◌≢◌}
use mathlib.Core.Bool.{Bool, true, false}
use mathlib.Core.List.{[], ◌∷◌, ◌++◌}
use mathlib.Core.Option.{none, some}
use native.Mathlib.Omega.{arith}
use capnp_ls.Prelude.Lists.{length, take, take-length, length-append}
use capnp_ls.Prelude.Strings.{Bytes}
use capnp_ls.Prelude.Regexes.{
  Regex, class, many, seq, optional, capture, Groups, Rest, match_many, match_class, match_regex,
}

abbrev pub AllIn : (ℕ → Bool) → Bytes → Type 0
AllIn p [] = Unit
AllIn p (c ∷ cs) = (p c ≡ true) × AllIn p cs

-- A repetition of the class ends here.
abbrev pub StopsAt : (ℕ → Bool) → Bytes → Type 0
StopsAt p [] = Unit
StopsAt p (c ∷ cs) = p c ≡ false

pub match_many-AllIn :
    (p : ℕ → Bool) (xs r : Bytes) (gs : Groups) (k : Rest) (g : Groups)
    → AllIn p xs
    → StopsAt p r
    → k r gs ≡ some g
    → match_many p (xs ++ r) gs k ≡ some g
unfolding match_many
match_many-AllIn p [] [] gs k g h s e = e
match_many-AllIn p [] (c ∷ cs) gs k g h s e = ground arith
match_many-AllIn p (x ∷ xs) r gs k g h s e = ground (arith, match_many-AllIn p xs r gs k g h.1 s e)

captured : (xs r : Bytes) → take (length (xs ++ r) - length r) (xs ++ r) ≡ xs
captured xs r =
    let size : length (xs ++ r) - length r ≡ length xs = omega (arith, length-append xs r) in
    ap (λ n. take n (xs ++ r)) size ∙ take-length xs r

-- What a capture hands on, where its part of the text is `xs`.
capture_lem :
    (n : ℕ) (xs r : Bytes) (gs : Groups) (k : Rest) (g : Groups)
    → k r ((n, xs) ∷ gs) ≡ some g
    → k r ((n, take (length (xs ++ r) - length r) (xs ++ r)) ∷ gs) ≡ some g
capture_lem n xs r gs k g e = ap (λ t. k r ((n, t) ∷ gs)) (captured xs r) ∙ e

module _ (p : ℕ → Bool) (xs r : Bytes) (b : Regex) (gs : Groups) (k : Rest) (g : Groups) where
  pub match-many :
      AllIn p xs
      → StopsAt p r
      → match_regex b r gs k ≡ some g
      → match_regex (seq (many p) b) (xs ++ r) gs k ≡ some g
  unfolding match_regex
  match-many h s e = match_many-AllIn p xs r gs (λ s' gs'. match_regex b s' gs' k) g h s e

  pub match-capture_many :
      (n : ℕ)
      → AllIn p xs
      → StopsAt p r
      → match_regex b r ((n, xs) ∷ gs) k ≡ some g
      → match_regex (seq (capture n (many p)) b) (xs ++ r) gs k ≡ some g
  unfolding match_regex
  match-capture_many n h s e =
      match_many-AllIn p xs r gs
        (λ s' gs'. match_regex b s' ((n, take (length (xs ++ r) - length s') (xs ++ r)) ∷ gs') k) g
        h s (capture_lem n xs r gs (λ s' gs'. match_regex b s' gs' k) g e)

-- A byte of the class, and then all others.
match_some-AllIn :
    (p : ℕ → Bool) (xs r : Bytes) (gs : Groups) (k : Rest) (g : Groups)
    → AllIn p xs
    → xs ≢ []
    → StopsAt p r
    → k r gs ≡ some g
    → match_regex (seq (class p) (many p)) (xs ++ r) gs k ≡ some g
unfolding match_regex match_class
match_some-AllIn p [] r gs k g h ne s e = absurd (ne refl)
match_some-AllIn p (x ∷ xs) r gs k g h ne s e =
    ground (arith, match_many-AllIn p xs r gs k g h.1 s e)

module _ (p : ℕ → Bool) (xs r : Bytes) (b : Regex) (gs : Groups) (k : Rest) (g : Groups) where
  pub match-capture_some :
      (n : ℕ)
      → AllIn p xs
      → xs ≢ []
      → StopsAt p r
      → match_regex b r ((n, xs) ∷ gs) k ≡ some g
      → match_regex (seq (capture n (seq (class p) (many p))) b) (xs ++ r) gs k ≡ some g
  unfolding match_regex
  match-capture_some n h ne s e =
      match_some-AllIn p xs r gs
        (λ s' gs'. match_regex b s' ((n, take (length (xs ++ r) - length s') (xs ++ r)) ∷ gs') k) g
        h ne s (capture_lem n xs r gs (λ s' gs'. match_regex b s' gs' k) g e)

  -- The same where an option stands in front that cannot match.
  pub match-capture_optional_some :
      (n : ℕ) (a : Regex)
      → ((k' : Rest) → match_regex a (xs ++ r) gs k' ≡ none)
      → AllIn p xs
      → xs ≢ []
      → StopsAt p r
      → match_regex b r ((n, xs) ∷ gs) k ≡ some g
      → match_regex (seq (capture n (seq (optional a) (seq (class p) (many p)))) b) (xs ++ r) gs k
        ≡ some g
  unfolding match_regex
  match-capture_optional_some n a no_a h ne s e = ground (
    arith,
    no_a (λ s' gs'. match_regex (seq (class p) (many p)) s' gs' (λ s'' gs''.
        match_regex b s'' ((n, take (length (xs ++ r) - length s'') (xs ++ r)) ∷ gs'') k)),
    match-capture_some n h ne s e,
  )

module _ (a b : Regex) (s : Bytes) (gs : Groups) (k : Rest) (g : Groups) where
  -- An option that matches, with what follows it, is taken.
  pub match-optional :
      match_regex (seq a b) s gs k ≡ some g → match_regex (seq (optional a) b) s gs k ≡ some g
  unfolding match_regex
  match-optional e = ground arith

  -- One that cannot match is passed over.
  pub match-optional_none :
      match_regex (seq a b) s gs k ≡ none
      → match_regex b s gs k ≡ some g
      → match_regex (seq (optional a) b) s gs k ≡ some g
  unfolding match_regex
  match-optional_none n e = ground arith

pub match-seq_assoc :
    (a b c : Regex) (s : Bytes) (gs : Groups) (k : Rest)
    → match_regex (seq (seq a b) c) s gs k ≡ match_regex (seq a (seq b c)) s gs k
unfolding match_regex
match-seq_assoc a b c s gs k = refl

pub match-class :
    (p : ℕ → Bool) (c : ℕ) (cs : Bytes) (b : Regex) (gs : Groups) (k : Rest)
    → p c ≡ true
    → match_regex (seq (class p) b) (c ∷ cs) gs k ≡ match_regex b cs gs k
unfolding match_regex match_class
match-class p c cs b gs k h = ground arith

pub match-class_none :
    (p : ℕ → Bool) (c : ℕ) (cs : Bytes) (b : Regex) (gs : Groups) (k : Rest)
    → p c ≡ false
    → match_regex (seq (class p) b) (c ∷ cs) gs k ≡ none
unfolding match_regex match_class
match-class_none p c cs b gs k h = ground arith

pub StopsAt-append :
    (p : ℕ → Bool) (xs r : Bytes) (c : ℕ) → StopsAt p (xs ++ (c ∷ [])) → StopsAt p (xs ++ (c ∷ r))
StopsAt-append p [] r c h = h
StopsAt-append p (x ∷ xs) r c h = h
