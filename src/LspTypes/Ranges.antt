-- ===== src/LspTypes/Ranges.antt =====
-- The equality that keys the range map.
use capnp_ls.Prelude.{◌≡◌, ◌↔◌, true, arith, KeyEq}
use capnp_ls.LspTypes.{Range, range_eq}

pub range_eq_iff : (a b : Range) → (range_eq a b ≡ true) ↔ (a ≡ b)
unfolding range_eq
range_eq_iff a b = ground arith

instance abbrev pub range_key : KeyEq Range
range_key = record { same_key = range_eq; same_key_iff = range_eq_iff }
