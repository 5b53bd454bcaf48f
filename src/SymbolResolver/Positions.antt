-- ===== src/SymbolResolver/Positions.antt =====
-- Positions against their meaning: a line is one more than the newlines in front of it, a character
-- one more than the bytes behind the last of these; offsets in order give positions in order.
use capnp_ls.Prelude.{
  ℕ, zero, suc, ◌+◌, ◌%◌, ◌<◌, ◌≤◌, ◌==◌, if◌then◌else◌, [], ◌∷◌, Bytes, ◌≡◌, ◌⊎◌, inl, inr,
  Bool-cases, refl, arith, length, take, ◌∙◌,
}
use capnp_ls.LspTypes.{Position}
use capnp_ls.SymbolResolver.{advance, start_of_file, u32_mod}

abbrev pub newlines : Bytes → ℕ
newlines [] = 0
newlines (c ∷ cs) = if c == 10 then suc (newlines cs) else newlines cs

-- The bytes behind the last newline, where `n` bytes stand on the line already.
abbrev pub last_line : ℕ → Bytes → ℕ
last_line n [] = n
last_line n (c ∷ cs) = last_line (if c == 10 then 0 else suc n) cs

advance_lem :
    (n : ℕ) (content : Bytes) (pos : Position) (k : ℕ)
    → pos.character ≡ suc k
    → pos.line + length content < u32_mod
    → pos.character + length content < u32_mod
    → advance n content pos ≡ record {
      line = pos.line + newlines (take n content);
      character = suc (last_line k (take n content));
    }
unfolding advance
advance_lem zero content pos k e l c = ground arith
advance_lem (suc n) [] pos k e l c = ground arith
advance_lem (suc n) (x ∷ xs) pos k e l c =
    let broken : Position = record { line = (pos.line + 1) % u32_mod; character = 1 } in
    let longer : Position = record pos { character = (pos.character + 1) % u32_mod } in
    elim (Bool-cases (x == 10)) [
      | inl new_line ↦
          rw new_line (advance_lem n xs broken 0 refl (omega arith) (omega arith) ∙ ground arith)
      | inr in_line ↦
          rw in_line (
            advance_lem n xs longer (suc k) (omega arith) (omega arith) (omega arith)
            ∙ ground arith)
    ]

-- The position of an offset in a content that is no longer than uint32_t counts.
pub advance-start_of_file :
    (n : ℕ) (content : Bytes)
    → length content + 1 < u32_mod
    → advance n content start_of_file ≡ record {
      line = 1 + newlines (take n content);
      character = 1 + last_line 0 (take n content);
    }
advance-start_of_file n content h =
    advance_lem n content start_of_file 0 refl (omega arith) (omega arith) ∙ ground arith

-- Lexicographic order of positions.
abbrev pub Precedes : Position → Position → Type 0
Precedes p q = (p.line < q.line) ⊎ ((p.line ≡ q.line) × (p.character < q.character))

Precedes-trans : (p q r : Position) → Precedes p q → Precedes q r → Precedes p r
Precedes-trans p q r h k = ground arith

abbrev pub step : ℕ → Position → Position
step c pos =
    if c == 10
    then record { line = (pos.line + 1) % u32_mod; character = 1 }
    else record pos { character = (pos.character + 1) % u32_mod }

step-Precedes :
    (c : ℕ) (p : Position)
    → p.line + 1 < u32_mod
    → p.character + 1 < u32_mod
    → Precedes p (step c p)
step-Precedes c p l k = ground arith

pub step_room :
    (c n : ℕ) (p : Position)
    → p.line + suc n < u32_mod
    → p.character + suc n < u32_mod
    → ((step c p).line + n < u32_mod) × ((step c p).character + n < u32_mod)
step_room c n p l k = ground arith

advance_moves :
    (n : ℕ) (content : Bytes) (p : Position)
    → n < length content
    → p.line + length content < u32_mod
    → p.character + length content < u32_mod
    → Precedes p (advance (suc n) content p)
unfolding advance
advance_moves n [] p lt l k = absurd (omega arith)
advance_moves zero (c ∷ cs) p lt l k = step-Precedes c p (omega arith) (omega arith)
advance_moves (suc n) (c ∷ cs) p lt l k =
    let room = step_room c (length cs) p l k in
    Precedes-trans p (step c p) _ (step-Precedes c p (omega arith) (omega arith))
      (advance_moves n cs (step c p) (omega arith) room.0 room.1)

-- Of two offsets in a content, the first has the earlier position.
pub advance-Precedes :
    (m n : ℕ) (content : Bytes) (p : Position)
    → m < n
    → n ≤ length content
    → p.line + length content < u32_mod
    → p.character + length content < u32_mod
    → Precedes (advance m content p) (advance n content p)
unfolding advance
advance-Precedes m zero content p lt le l k = absurd (omega arith)
advance-Precedes m (suc n) [] p lt le l k = absurd (omega arith)
advance-Precedes zero (suc n) (c ∷ cs) p lt le l k = advance_moves n (c ∷ cs) p (omega arith) l k
advance-Precedes (suc m) (suc n) (c ∷ cs) p lt le l k =
    let room = step_room c (length cs) p l k in
    advance-Precedes m n cs (step c p) (omega arith) (omega arith) room.0 room.1
