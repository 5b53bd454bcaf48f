-- ===== src/SubprocessRunner/Inherited.antt =====
-- What the parent and the child hold behind the launch of a process.
use capnp_ls.Prelude.{ℕ, ◌+◌, ◌==◌, Bool, if◌then◌else◌, some, length, ◌≡◌, ap, ◌∙◌, arith}
use capnp_ls.SubprocessRunner.Descriptors.{End, read_end, write_end, Table, held, launched, launch}
use capnp_ls.SubprocessRunner.Launches.{Launched, launch-Launched}
use capnp_ls.SubprocessRunner.Closing.{held-lt, Made-Apart, parent_ends, child_ends}

parent_holds :
    (pipe : ℕ) (t parent child : Table) (out err : ℕ)
    → Launched pipe t parent child out err
    → (j : ℕ)
    → held parent j ≡ (
        if out == j
        then some (read_end pipe)
        else if err == j
        then some (read_end (pipe + 1))
        else held t j)
parent_holds pipe t parent child out err l j =
    ap (λ u. held u j) l.parent_is
    ∙ parent_ends pipe t l.t1 l.t2 out l.pipe_1 err l.err_1 j l.out_made l.err_made

child_holds :
    (pipe : ℕ) (t parent child : Table) (out err : ℕ) (x y : End)
    → held t 1 ≡ some x
    → held t 2 ≡ some y
    → Launched pipe t parent child out err
    → (j : ℕ)
    → held child j ≡ (
        if 1 == j
        then some (write_end pipe)
        else if 2 == j
        then some (write_end (pipe + 1))
        else held t j)
child_holds pipe t parent child out err x y h1 h2 l j =
    let a = l.out_made in
    let b = l.err_made in
    let apart = Made-Apart pipe t l.t1 l.t2 out l.pipe_1 err l.err_1 a b in
    let w = l.pipe_1 in
    let v = l.err_1 in
    let at_w : held l.t2 w ≡ some (write_end pipe) =
      ground (arith, a.ends w, b.ends w, apart.w_e, apart.w_v) in
    let at_v : held l.t2 v ≡ some (write_end (pipe + 1)) = ground (arith, b.ends v) in
    let lt_1 = held-lt t 1 x h1 in
    let lt_2 = held-lt t 2 y h2 in
    let longer : length l.t2 ≡ length t = b.same_length ∙ a.same_length in
    ap (λ u. held u j) l.child_is
    ∙ child_ends pipe l.t2 out w err v j at_w at_v (omega (arith, longer, a.r_free.within))
        (omega (arith, b.same_length, b.r_free.within)) (omega (arith, longer, lt_1))
        (omega (arith, longer, lt_2)) apart.o_w apart.o_v apart.w_e apart.w_v apart.e_v
        (ground (arith, apart.w_free)) (ground (arith, apart.w_free)) (ground (arith, apart.v_free))
        (ground (arith, apart.v_free)) (ground (arith, apart.o_free)) (ground (arith, apart.o_free))
        (ground (arith, apart.e_free)) (ground (arith, apart.e_free))
    ∙ ground (arith, a.ends j, b.ends j, apart.o_free, apart.w_free, apart.e_free, apart.v_free)

-- If descriptors 1 and 2 are open where `run` opens its pipes, and it forks, then the child holds
-- the write end of the first pipe at 1, that of the second at 2, and at every other descriptor
-- what was there before. The parent holds the two read ends at the descriptors that it reads, and
-- at every other one what was there before, so that no write end of the pipes stays with it.
pub launch_lem :
    (forks : Bool) (pipe : ℕ) (t parent child : Table) (out err : ℕ) (x y : End)
    → held t 1 ≡ some x
    → held t 2 ≡ some y
    → launch forks pipe t ≡ launched parent child out err
    → (j : ℕ)
    → (held child j ≡ (
        if 1 == j
        then some (write_end pipe)
        else if 2 == j
        then some (write_end (pipe + 1))
        else held t j))
      × (held parent j ≡ (
          if out == j
          then some (read_end pipe)
          else if err == j
          then some (read_end (pipe + 1))
          else held t j))
launch_lem forks pipe t parent child out err x y h1 h2 e j =
    let l = launch-Launched forks pipe t parent child out err e in
    (
      child_holds pipe t parent child out err x y h1 h2 l j,
      parent_holds pipe t parent child out err l j,
    )
