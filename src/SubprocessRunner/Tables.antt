-- ===== src/SubprocessRunner/Tables.antt =====
-- Laws of a table of descriptors.
use capnp_ls.Prelude.{
  ℕ, zero, suc, ◌+◌, ◌<◌, ◌≤◌, ◌==◌, if◌then◌else◌, Option, none, some, Option-cases, [], ◌∷◌,
  length, ◌≡◌, inl, inr, refl, arith,
}
use capnp_ls.SubprocessRunner.Descriptors.{End, Table, held, set, first_free}

pub length-set : (t : Table) (fd : ℕ) (x : Option End) → length (set t fd x) ≡ length t
length-set [] fd x = refl
length-set (y ∷ t) zero x = refl
length-set (y ∷ t) (suc fd) x = omega (arith, length-set t fd x)

pub held-set :
    (t : Table) (fd : ℕ) (x : Option End) (j : ℕ)
    → fd < length t
    → held (set t fd x) j ≡ (if fd == j then x else held t j)
held-set [] fd x j h = absurd (omega arith)
held-set (y ∷ t) zero x zero h = refl
held-set (y ∷ t) zero x (suc j) h = ground arith
held-set (y ∷ t) (suc fd) x zero h = ground arith
held-set (y ∷ t) (suc fd) x (suc j) h = ground (arith, held-set t fd x j)

-- The descriptor is free, and there is a place for it.
pub record IsFree (t : Table) (fd : ℕ) : Type 0 where
  pub within : fd < length t
  pub unused : held t fd ≡ none

pub first_free-IsFree : (t : Table) (fd : ℕ) → first_free t ≡ some fd → IsFree t fd
unfolding first_free
first_free-IsFree [] fd e = absurd (ground arith)
first_free-IsFree (none ∷ t) fd e = record { within = ground arith; unused = ground arith }
first_free-IsFree (some x ∷ t) fd e = elim (Option-cases (first_free t)) [
  | inl f ↦ absurd (ground arith)
  | inr (k, f) ↦
      (let below = first_free-IsFree t k f in
        record { within = ground (arith, below.within); unused = ground (arith, below.unused) })
]

-- How many descriptors are open.
abbrev pub opened : Table → ℕ
opened [] = 0
opened (none ∷ t) = opened t
opened (some x ∷ t) = suc (opened t)

pub opened-le : (t : Table) → opened t ≤ length t
opened-le [] = omega arith
opened-le (none ∷ t) = omega (arith, opened-le t)
opened-le (some x ∷ t) = omega (arith, opened-le t)

pub opened-set :
    (t : Table) (fd : ℕ) (x : End)
    → fd < length t
    → held t fd ≡ none
    → opened (set t fd (some x)) ≡ opened t + 1
opened-set [] fd x h e = absurd (omega arith)
opened-set (none ∷ t) zero x h e = omega arith
opened-set (some y ∷ t) zero x h e = cc
opened-set (none ∷ t) (suc fd) x h e = omega (arith, opened-set t fd x (omega arith) e)
opened-set (some y ∷ t) (suc fd) x h e = omega (arith, opened-set t fd x (omega arith) e)

pub opened-close :
    (t : Table) (fd : ℕ) (x : End) → held t fd ≡ some x → opened (set t fd none) + 1 ≡ opened t
opened-close [] fd x e = cc
opened-close (none ∷ t) zero x e = cc
opened-close (some y ∷ t) zero x e = omega arith
opened-close (none ∷ t) (suc fd) x e = omega (arith, opened-close t fd x e)
opened-close (some y ∷ t) (suc fd) x e = omega (arith, opened-close t fd x e)
