-- ===== src/Prelude/Strings.antt =====
-- Byte strings, and what the source uses of kj::StringPtr and of <cstring> on them.
use Prim.Native.Nat.{ℕ, suc}
use Prim.Native.Char.{code}
use Prim.Native.String.{String}
use mathlib.Core.Path.{◌≡◌, refl}
use mathlib.Core.Logic.{◌↔◌, ◌≢◌}
use mathlib.Core.Bool.{Bool, true, false, ◌&&◌}
use mathlib.Core.List.{List, [], ◌∷◌, ◌++◌, reverse}
use mathlib.Core.Option
use mathlib.Core.Option.{Option, none, some}
use native.Mathlib.Omega.{arith}
use capnp_ls.Prelude.Tests.{◌==◌, if◌then◌else◌}
use capnp_ls.Prelude.Lists.{length}

abbrev pub Bytes : Type 0
Bytes = List ℕ

-- The bytes of an ASCII literal.
abbrev pub bytes : String → Bytes
bytes String.[] = []
bytes (String.◌∷◌ c s) = code c ∷ bytes s

-- `a == b` on kj::StringPtr
unfoldable pub same : Bytes → Bytes → Bool
same [] [] = true
same (x ∷ xs) (y ∷ ys) = x == y && same xs ys
same _ _ = false

pub same_iff : (a b : Bytes) → (same a b ≡ true) ↔ (a ≡ b)
unfolding same
same_iff (x ∷ a) (y ∷ b) = ground (arith, same_iff a b)
same_iff _ _ = ground arith

pub same_refl : (a : Bytes) → same a a ≡ true
same_refl a = (same_iff a a).1 refl

-- `s.startsWith(prefix)`
unfoldable pub starts_with : Bytes → Bytes → Bool
starts_with [] s = true
starts_with (x ∷ xs) [] = false
starts_with (x ∷ xs) (y ∷ ys) = x == y && starts_with xs ys

-- `s.endsWith(suffix)`
unfoldable pub ends_with : Bytes → Bytes → Bool
unfolding starts_with
ends_with suffix s = starts_with (reverse suffix) (reverse s)

pub starts_with-append : (p s : Bytes) → starts_with p (p ++ s) ≡ true
unfolding starts_with
starts_with-append [] s = refl
starts_with-append (x ∷ p) s = ground (arith, starts_with-append p s)

-- `strstr(hay, needle)`, as an offset. A C string ends at its first NUL.
unfoldable pub strstr : Bytes → Bytes → Option ℕ
unfolding starts_with
strstr [] needle = if starts_with needle [] then some 0 else none
strstr (c ∷ cs) needle =
    let later = Option.map suc (strstr cs needle) in
    if starts_with needle (c ∷ cs) then some 0 else if c == 0 then none else later

-- No byte of the text is `x`, and none is NUL.
abbrev pub Avoids : ℕ → Bytes → Type 0
Avoids x [] = Unit
Avoids x (c ∷ cs) = (c ≢ x) × (c ≢ 0) × Avoids x cs

pub Avoids-append : (x : ℕ) (p q : Bytes) → Avoids x p → Avoids x q → Avoids x (p ++ q)
Avoids-append x [] q h k = k
Avoids-append x (c ∷ p) q h k = (h.0, h.1, Avoids-append x p q h.2 k)

-- The search finds the needle behind a text that does not hold its first byte.
pub strstr-Avoids :
    (x : ℕ) (xs p rest : Bytes)
    → Avoids x p
    → strstr (p ++ (x ∷ (xs ++ rest))) (x ∷ xs) ≡ some (length p)
unfolding strstr starts_with
strstr-Avoids x xs [] rest h = ground (arith, starts_with-append xs rest)
strstr-Avoids x xs (c ∷ p) rest h = ground (arith, strstr-Avoids x xs p rest h.2)
