-- ===== src/SubprocessRunner/Closing.antt =====
-- What the closing of the parent and of the child makes of a table with two pipes.
use capnp_ls.Prelude.{
  ℕ, zero, suc, ◌+◌, ◌<◌, ◌==◌, if◌then◌else◌, none, some, [], ◌∷◌, length, ◌≡◌, ◌≢◌, ap, ◌∙◌,
  arith,
}
use capnp_ls.SubprocessRunner.Descriptors.{
  End, read_end, write_end, Table, held, set, close, dup2, parent_table, child_table,
}
use capnp_ls.SubprocessRunner.Tables.{length-set, held-set}
use capnp_ls.SubprocessRunner.Launches.{Made}

pub held-lt : (t : Table) (j : ℕ) (x : End) → held t j ≡ some x → j < length t
held-lt [] j x e = absurd (ground arith)
held-lt (y ∷ t) zero x e = omega arith
held-lt (y ∷ t) (suc j) x e = omega (arith, held-lt t j x e)

dup2_other : (old new : ℕ) (t : Table) → old ≢ new → dup2 old new t ≡ set t new (held t old)
dup2_other old new t ne = ground arith

-- The four descriptors of the pipes.
pub record Apart (t : Table) (o w e v : ℕ) : Type 0 where
  pub o_w : o ≢ w
  pub o_e : o ≢ e
  pub o_v : o ≢ v
  pub w_e : w ≢ e
  pub w_v : w ≢ v
  pub e_v : e ≢ v
  pub o_free : held t o ≡ none
  pub w_free : held t w ≡ none
  pub e_free : held t e ≡ none
  pub v_free : held t v ≡ none

pub Made-Apart :
    (pipe : ℕ) (t t1 t2 : Table) (o w e v : ℕ)
    → Made pipe t o w t1
    → Made (pipe + 1) t1 e v t2
    → Apart t o w e v
Made-Apart pipe t t1 t2 o w e v a b =
    let at_e = a.ends e in
    let at_v = a.ends v in
    let e_none = b.r_free.unused in
    let v_none = b.w_free.unused in
    record {
      o_w = a.apart;
      o_e = ground (arith, at_e, e_none);
      o_v = ground (arith, at_v, v_none);
      w_e = ground (arith, at_e, e_none);
      w_v = ground (arith, at_v, v_none);
      e_v = b.apart;
      o_free = a.r_free.unused;
      w_free = a.w_free.unused;
      e_free = ground (arith, at_e, e_none);
      v_free = ground (arith, at_v, v_none);
    }

pub parent_ends :
    (pipe : ℕ) (t t1 t2 : Table) (o w e v : ℕ) (j : ℕ)
    → Made pipe t o w t1
    → Made (pipe + 1) t1 e v t2
    → held (parent_table w v t2) j ≡ (
        if o == j
        then some (read_end pipe)
        else if e == j
        then some (read_end (pipe + 1))
        else held t j)
unfolding parent_table
parent_ends pipe t t1 t2 o w e v j a b =
    let apart = Made-Apart pipe t t1 t2 o w e v a b in
    let closed = close w t2 in
    ground (
      arith,
      held-set closed v none j
          (omega (arith, length-set t2 w none, b.same_length, b.w_free.within)),
      held-set t2 w none j (omega (arith, b.same_length, a.same_length, a.w_free.within)),
      b.ends j,
      a.ends j,
      apart.o_w,
      apart.o_v,
      apart.w_e,
      apart.e_v,
      apart.w_free,
      apart.v_free,
      apart.o_e,
    )

-- A run of the child's calls over a table that holds the ends of the pipes.
pub child_ends :
    (pipe : ℕ) (t2 : Table) (o w e v : ℕ) (j : ℕ)
    → held t2 w ≡ some (write_end pipe)
    → held t2 v ≡ some (write_end (pipe + 1))
    → o < length t2
    → e < length t2
    → 1 < length t2
    → 2 < length t2
    → o ≢ w
    → o ≢ v
    → w ≢ e
    → w ≢ v
    → e ≢ v
    → w ≢ 1
    → w ≢ 2
    → v ≢ 1
    → v ≢ 2
    → o ≢ 1
    → o ≢ 2
    → e ≢ 1
    → e ≢ 2
    → held (child_table o w e v t2) j ≡ (
        if 1 == j
        then some (write_end pipe)
        else if 2 == j
        then some (write_end (pipe + 1))
        else if o == j
        then none
        else if w == j
        then none
        else if e == j
        then none
        else if v == j
        then none
        else held t2 j)
unfolding child_table
child_ends pipe t2 o w e v j at_w at_v o_lt e_lt lt_1 lt_2 o_w o_v w_e w_v e_v w_1 w_2 v_1 v_2 o_1
      o_2 e_1 e_2 =
    let w_lt = held-lt t2 w _ at_w in
    let v_lt = held-lt t2 v _ at_v in
    let c1 = close o t2 in
    let l1 = length-set t2 o none in
    let c1_w : held c1 w ≡ some (write_end pipe) = ground (arith, held-set t2 o none w o_lt) in
    let c2 = set c1 1 (held c1 w) in
    let l2 = length-set c1 1 (held c1 w) in
    let c3 = close w c2 in
    let l3 = length-set c2 w none in
    let c4 = close e c3 in
    let l4 = length-set c3 e none in
    let lt1 : 1 < length c1 = omega (arith, l1, lt_1) in
    let lt2 : w < length c2 = omega (arith, l1, l2, w_lt) in
    let lt3 : e < length c3 = omega (arith, l1, l2, l3, e_lt) in
    let lt4 : 2 < length c4 = omega (arith, l1, l2, l3, l4, lt_2) in
    let c4_v : held c4 v ≡ some (write_end (pipe + 1)) = ground (
      arith,
      held-set c3 e none v lt3,
      held-set c2 w none v lt2,
      held-set c1 1 (held c1 w) v lt1,
      held-set t2 o none v o_lt,
    ) in
    let c5 = set c4 2 (held c4 v) in
    let lt5 : v < length c5 = omega (arith, l1, l2, l3, l4, length-set c4 2 (held c4 v), v_lt) in
    let unfolded : child_table o w e v t2 ≡ close v c5 =
      ap (λ u. close v (dup2 v 2 (close e (close w u)))) (dup2_other w 1 c1 w_1)
      ∙ ap (close v) (dup2_other v 2 c4 v_2) in
    ap (λ u. held u j) unfolded
    ∙ ground (
      arith,
      held-set c5 v none j lt5,
      held-set c4 2 (held c4 v) j lt4,
      held-set c3 e none j lt3,
      held-set c2 w none j lt2,
      held-set c1 1 (held c1 w) j lt1,
      held-set t2 o none j o_lt,
      c1_w,
      c4_v,
    )
