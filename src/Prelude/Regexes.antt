-- ===== src/Prelude/Regexes.antt =====
-- The part of std::regex (ECMAScript) that the source uses: classes, sequences, greedy repetition of
-- a class, options and captures, with backtracking in the order of the standard.
use Prim.Native.Nat.{ℕ, ◌-◌}
use mathlib.Core.Bool.{Bool, true, false}
use mathlib.Core.List.{List, [], ◌∷◌}
use mathlib.Core.Option.{Option, none, some}
use capnp_ls.Prelude.Tests.{if◌then◌else◌, ◌==◌}
use capnp_ls.Prelude.Lists.{length, take}
use capnp_ls.Prelude.Strings.{Bytes}

pub data Regex : Type 0 where
  class : (ℕ → Bool) → Regex
  many : (ℕ → Bool) → Regex
  seq : Regex → Regex → Regex
  optional : Regex → Regex
  capture : ℕ → Regex → Regex

-- The groups that are set, the latest first.
abbrev pub Groups : Type 0
Groups = List (ℕ × Bytes)

unfoldable pub group : ℕ → Groups → Option Bytes
group n [] = none
group n ((m, text) ∷ gs) = if m == n then some text else group n gs

-- What is left to match behind a part of the expression.
abbrev pub Rest : Type 0
Rest = Bytes → Groups → Option Groups

-- As many bytes of the class as there are, then fewer.
unfoldable pub match_many : (ℕ → Bool) → Bytes → Groups → Rest → Option Groups
match_many p [] gs k = k [] gs
match_many p (c ∷ cs) gs k = elim (p c) [
  | true ↦ elim (match_many p cs gs k) [ some found ↦ some found | none ↦ k (c ∷ cs) gs ]
  | false ↦ k (c ∷ cs) gs
]

unfoldable pub match_class : (ℕ → Bool) → Bytes → Groups → Rest → Option Groups
match_class p [] gs k = none
match_class p (c ∷ cs) gs k = if p c then k cs gs else none

unfoldable pub match_regex : Regex → Bytes → Groups → Rest → Option Groups
unfolding match_many match_class
match_regex (class p) s gs k = match_class p s gs k
match_regex (many p) s gs k = match_many p s gs k
match_regex (seq a b) s gs k = match_regex a s gs (λ s' gs'. match_regex b s' gs' k)
match_regex (optional a) s gs k = elim (match_regex a s gs k) [
  | some found ↦ some found
  | none ↦ k s gs
]
match_regex (capture n a) s gs k =
    match_regex a s gs (λ s' gs'. k s' ((n, take (length s - length s') s) ∷ gs'))

unfoldable pub at_end : Rest
at_end [] gs = some gs
at_end (c ∷ cs) gs = none

-- `std::regex_match`: the whole text matches.
unfoldable pub regex_match : Regex → Bytes → Option Groups
regex_match r s = match_regex r s [] at_end

abbrev pub anywhere : Rest
anywhere s gs = some gs

-- `std::regex_search`: the first place where a match starts.
unfoldable pub regex_search : Regex → Bytes → Option Groups
unfolding match_regex
regex_search r [] = match_regex r [] [] anywhere
regex_search r (c ∷ cs) = elim (match_regex r (c ∷ cs) [] anywhere) [
  | some found ↦ some found
  | none ↦ regex_search r cs
]
