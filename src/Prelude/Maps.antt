-- ===== src/Prelude/Maps.antt =====
-- kj::HashMap as an association list with one entry to a key, in order of insertion.
use mathlib.Core.Path.{◌≡◌, refl, sym, subst, subst₂}
use mathlib.Core.Logic.{◌↔◌, inl, inr}
use mathlib.Core.Bool.{Bool, true}
use mathlib.Core.List.{List, [], ◌∷◌}
use mathlib.Core.Option.{Option, none, some}
use native.Mathlib.Omega.{arith}
use Prim.Native.Nat.{ℕ}
use capnp_ls.Prelude.Tests.{Bool-cases, if◌then◌else◌, ◌==◌, ==_iff}
use capnp_ls.Prelude.Strings.{Bytes, same, same_iff}

pub record KeyEq {ℓ} (K : Type ℓ) : Type ℓ where
  pub same_key : K → K → Bool
  pub same_key_iff : (j k : K) → (same_key j k ≡ true) ↔ (j ≡ k)

instance abbrev pub nat_key : KeyEq ℕ
nat_key = record { same_key = λ a b. a == b; same_key_iff = ==_iff }

instance abbrev pub bytes_key : KeyEq Bytes
bytes_key = record { same_key = same; same_key_iff = same_iff }

abbrev pub HashMap {ℓ} : Type ℓ → Type ℓ → Type ℓ
HashMap K V = List (K × V)

module _ {ℓ} {K V : Type ℓ} ⦃e : KeyEq K⦄ where
  unfoldable pub find : K → HashMap K V → Option V
  find k [] = none
  find k ((j, v) ∷ m) = if e.same_key j k then some v else find k m

  -- `upsert(key, value)` replaces the value of a key that is there.
  unfoldable pub upsert : K → V → HashMap K V → HashMap K V
  upsert k v [] = (k, v) ∷ []
  upsert k v ((j, w) ∷ m) = if e.same_key j k then (j, v) ∷ m else (j, w) ∷ upsert k v m

  unfoldable pub erase : K → HashMap K V → HashMap K V
  erase k [] = []
  erase k ((j, w) ∷ m) = let rest = erase k m in if e.same_key j k then rest else (j, w) ∷ rest

  pub find-upsert :
      (k j : K) (v : V) (m : HashMap K V)
      → find j (upsert k v m) ≡ (if e.same_key k j then some v else find j m)
  unfolding find upsert
  find-upsert k j v [] = refl
  find-upsert k j v ((i, w) ∷ m) =
      ground
        (arith, e.same_key_iff i k, e.same_key_iff i j, e.same_key_iff k j, find-upsert k j v m)

  pub find-erase :
      (k j : K) (m : HashMap K V) → find j (erase k m) ≡ (if e.same_key k j then none else find j m)
  unfolding find erase
  find-erase k j [] = ground arith
  find-erase k j ((i, w) ∷ m) =
      ground (arith, e.same_key_iff i k, e.same_key_iff i j, e.same_key_iff k j, find-erase k j m)

pub same_key_refl {ℓ} : {K : Type ℓ} ⦃e : KeyEq K⦄ (k : K) → e.same_key k k ≡ true
same_key_refl ⦃e⦄ k = (e.same_key_iff k k).1 refl

module _ {ℓ} {K V : Type ℓ} (P : K → V → Type ℓ) where
  abbrev pub AllEntries : HashMap K V → Type ℓ
  AllEntries [] = Unit
  AllEntries ((k, v) ∷ m) = P k v × AllEntries m

module _ {ℓ} {K V : Type ℓ} ⦃e : KeyEq K⦄ (P : K → V → Type ℓ) where
  pub upsert-AllEntries :
      (k : K) (v : V) (m : HashMap K V) → P k v → AllEntries P m → AllEntries P (upsert k v m)
  unfolding upsert
  upsert-AllEntries k v [] h t = (h, tt)
  upsert-AllEntries k v ((j, w) ∷ m) h t = elim (Bool-cases (e.same_key j k)) [
    | inl old ↦ rw old (subst (λ x. P x v) (sym ((e.same_key_iff j k).0 old)) h, t.1)
    | inr new ↦ rw new (t.0, upsert-AllEntries k v m h t.1)
  ]

  pub erase-AllEntries : (k : K) (m : HashMap K V) → AllEntries P m → AllEntries P (erase k m)
  unfolding erase
  erase-AllEntries k [] t = tt
  erase-AllEntries k ((j, w) ∷ m) t = elim (Bool-cases (e.same_key j k)) [
    | inl old ↦ rw old (erase-AllEntries k m t.1)
    | inr new ↦ rw new (t.0, erase-AllEntries k m t.1)
  ]

  pub find-AllEntries :
      (k : K) (v : V) (m : HashMap K V) → AllEntries P m → find k m ≡ some v → P k v
  unfolding find
  find-AllEntries k v [] t h = cc
  find-AllEntries k v ((j, w) ∷ m) t h = elim (Bool-cases (e.same_key j k)) [
    | inl old ↦
        let same_value : some w ≡ some v = rw old at h in
        subst₂ P ((e.same_key_iff j k).0 old) (cc) t.0
    | inr new ↦ find-AllEntries k v m t.1 (rw new at h)
  ]
