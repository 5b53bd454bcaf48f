-- ===== src/StdinReader/Numbers.antt =====
-- `strtoul` on the digits of a header.
use capnp_ls.Prelude.{
  ℕ, ◌<◌, ◌*◌, ◌+◌, ◌-◌, Bytes, [], ◌∷◌, ◌++◌, ◌≡◌, ◌≢◌, refl, true, false, arith,
}
use capnp_ls.StdinReader.{is_space, is_digit, digits_from, strtoul, size_mod}

abbrev pub AllDigits : Bytes → Type 0
AllDigits [] = Unit
AllDigits (c ∷ cs) = (is_digit c ≡ true) × AllDigits cs

-- Digits end at a carriage return.
pub digits_from-append :
    (acc : ℕ) (ds rest : Bytes)
    → AllDigits ds
    → digits_from acc (ds ++ (13 ∷ rest)) ≡ digits_from acc ds
unfolding digits_from
digits_from-append acc [] rest h = refl
digits_from-append acc (c ∷ cs) rest h =
    ground (arith, digits_from-append (acc * 10 + (c - 48)) cs rest h.1)

digit_not_space : (c : ℕ) → is_digit c ≡ true → is_space c ≡ false
unfolding is_digit is_space
digit_not_space c h = ground arith

pub strtoul_digits :
    (ds rest : Bytes)
    → AllDigits ds
    → ds ≢ []
    → digits_from 0 ds < size_mod
    → strtoul (ds ++ (13 ∷ rest)) ≡ digits_from 0 ds
unfolding strtoul is_digit
strtoul_digits [] rest h ne lt = absurd (ne refl)
strtoul_digits (c ∷ cs) rest h ne lt = ground (arith, digits_from-append (0 + (c - 48)) cs rest h.1)
