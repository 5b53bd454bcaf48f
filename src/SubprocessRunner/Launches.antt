-- ===== src/SubprocessRunner/Launches.antt =====
-- What the tables of the parent and of the child are behind a launch.
use capnp_ls.Prelude.{
  ℕ, ◌+◌, ◌==◌, Bool, true, false, if◌then◌else◌, Option, none, some, Option-cases, length, ◌≡◌,
  ◌≢◌, subst, inl, inr, refl, sym, ◌∙◌, arith,
}
use capnp_ls.SubprocessRunner.Descriptors.{
  read_end, write_end, Table, held, set, first_free, make_pipe, parent_table, child_table, Launch,
  failed, launched, fork_launch, launch,
}
use capnp_ls.SubprocessRunner.Tables.{
  length-set, held-set, IsFree, first_free-IsFree, opened, opened-set,
}

-- What `pipe` made of a table.
pub record Made (pipe : ℕ) (t : Table) (r w : ℕ) (u : Table) : Type 0 where
  pub r_free : IsFree t r
  pub w_free : IsFree t w
  pub apart : r ≢ w
  pub same_length : length u ≡ length t
  pub ends :
      (j : ℕ)
      → held u j ≡ (
          if w == j
          then some (write_end pipe)
          else if r == j
          then some (read_end pipe)
          else held t j)
  pub two_more : opened u ≡ opened t + 2

-- The same of a result of `make_pipe`.
abbrev IsMade : ℕ → Table → Option (ℕ × ℕ × Table) → Type 0
IsMade pipe t none = ⊥
IsMade pipe t (some (r, w, u)) = Made pipe t r w u

make_pipe-none : (pipe : ℕ) (t : Table) → first_free t ≡ none → make_pipe pipe t ≡ none
unfolding make_pipe
make_pipe-none pipe t e = ground arith

make_pipe_full :
    (pipe : ℕ) (t : Table) (r : ℕ)
    → first_free t ≡ some r
    → first_free (set t r (some (read_end pipe))) ≡ none
    → make_pipe pipe t ≡ none
unfolding make_pipe
make_pipe_full pipe t r e f = ground arith

pub make_pipe_two :
    (pipe : ℕ) (t : Table) (r w : ℕ)
    → first_free t ≡ some r
    → first_free (set t r (some (read_end pipe))) ≡ some w
    → make_pipe pipe t ≡ some (r, w, set (set t r (some (read_end pipe))) w (some (write_end pipe)))
unfolding make_pipe
make_pipe_two pipe t r w e f = ground arith

set-Made :
    (pipe : ℕ) (t : Table) (r w : ℕ)
    → IsFree t r
    → IsFree (set t r (some (read_end pipe))) w
    → Made pipe t r w (set (set t r (some (read_end pipe))) w (some (write_end pipe)))
set-Made pipe t r w a b =
    let t' = set t r (some (read_end pipe)) in
    let at_w = held-set t r (some (read_end pipe)) w a.within in
    let apart : r ≢ w = ground (arith, at_w, b.unused) in
    record {
      r_free = a;
      w_free = record {
        within = omega (arith, b.within, length-set t r (some (read_end pipe)));
        unused = ground (arith, at_w, b.unused);
      };
      apart = apart;
      same_length =
          omega
            (arith, length-set t r (some (read_end pipe)), length-set t' w (some (write_end pipe)));
      ends = λ j. ground (
        arith,
        held-set t' w (some (write_end pipe)) j b.within,
        held-set t r (some (read_end pipe)) j a.within,
      );
      two_more = omega (
        arith,
        opened-set t r (read_end pipe) a.within a.unused,
        opened-set t' w (write_end pipe) b.within b.unused,
      );
    }

pub make_pipe-Made :
    (pipe : ℕ) (t : Table) (r w : ℕ) (u : Table)
    → make_pipe pipe t ≡ some (r, w, u)
    → Made pipe t r w u
make_pipe-Made pipe t r w u e = elim (Option-cases (first_free t)) [
  | inl f ↦ absurd (ground (arith, make_pipe-none pipe t f))
  | inr (r', f) ↦ elim (Option-cases (first_free (set t r' (some (read_end pipe))))) [
    | inl g ↦ absurd (ground (arith, make_pipe_full pipe t r' f g))
    | inr (w', g) ↦ subst (IsMade pipe t) (sym (make_pipe_two pipe t r' w' f g) ∙ e) (
        set-Made pipe t r' w' (first_free-IsFree t r' f)
          (first_free-IsFree (set t r' (some (read_end pipe))) w' g))
  ]
]

-- The steps of a launch that succeeds.
pub record Launched (pipe : ℕ) (t : Table) (parent child : Table) (out err : ℕ) : Type 0 where
  pub pipe_1 : ℕ
  pub err_1 : ℕ
  pub t1 : Table
  pub t2 : Table
  pub out_made : Made pipe t out pipe_1 t1
  pub err_made : Made (pipe + 1) t1 err err_1 t2
  pub parent_is : parent ≡ parent_table pipe_1 err_1 t2
  pub child_is : child ≡ child_table out pipe_1 err err_1 t2

abbrev IsLaunched : ℕ → Table → Launch → Type 0
IsLaunched pipe t (failed u) = Unit
IsLaunched pipe t (launched parent child out err) = Launched pipe t parent child out err

launch_no_pipe :
    (forks : Bool) (pipe : ℕ) (t : Table) → make_pipe pipe t ≡ none → launch forks pipe t ≡ failed t
unfolding launch
launch_no_pipe forks pipe t e = ground arith

launch_no_errors :
    (forks : Bool) (pipe : ℕ) (t : Table) (r w : ℕ) (t1 : Table)
    → make_pipe pipe t ≡ some (r, w, t1)
    → make_pipe (pipe + 1) t1 ≡ none
    → launch forks pipe t ≡ failed t1
unfolding launch
launch_no_errors forks pipe t r w t1 e f = ground arith

pub launch_pipes :
    (forks : Bool) (pipe : ℕ) (t : Table) (r w r' w' : ℕ) (t1 t2 : Table)
    → make_pipe pipe t ≡ some (r, w, t1)
    → make_pipe (pipe + 1) t1 ≡ some (r', w', t2)
    → launch forks pipe t ≡ fork_launch forks r w r' w' t2
unfolding launch
launch_pipes forks pipe t r w r' w' t1 t2 e f = ground arith

fork-IsLaunched :
    (forks : Bool) (pipe : ℕ) (t : Table) (r w r' w' : ℕ) (t1 t2 : Table)
    → Made pipe t r w t1
    → Made (pipe + 1) t1 r' w' t2
    → IsLaunched pipe t (fork_launch forks r w r' w' t2)
fork-IsLaunched false pipe t r w r' w' t1 t2 a b = tt
fork-IsLaunched true pipe t r w r' w' t1 t2 a b = record {
  pipe_1 = w;
  err_1 = w';
  t1 = t1;
  t2 = t2;
  out_made = a;
  err_made = b;
  parent_is = refl;
  child_is = refl;
}

launch-IsLaunched : (forks : Bool) (pipe : ℕ) (t : Table) → IsLaunched pipe t (launch forks pipe t)
launch-IsLaunched forks pipe t = elim (Option-cases (make_pipe pipe t)) [
  | inl e ↦ rw (launch_no_pipe forks pipe t e) tt
  | inr ((r, w, t1), e) ↦ elim (Option-cases (make_pipe (pipe + 1) t1)) [
    | inl f ↦ rw (launch_no_errors forks pipe t r w t1 e f) tt
    | inr ((r', w', t2), f) ↦ rw (launch_pipes forks pipe t r w r' w' t1 t2 e f) (
        fork-IsLaunched forks pipe t r w r' w' t1 t2 (make_pipe-Made pipe t r w t1 e)
          (make_pipe-Made (pipe + 1) t1 r' w' t2 f))
  ]
]

pub launch-Launched :
    (forks : Bool) (pipe : ℕ) (t parent child : Table) (out err : ℕ)
    → launch forks pipe t ≡ launched parent child out err
    → Launched pipe t parent child out err
launch-Launched forks pipe t parent child out err e =
    subst (IsLaunched pipe t) e (launch-IsLaunched forks pipe t)
