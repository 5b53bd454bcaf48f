-- ===== src/SubprocessRunner/Descriptors.antt =====
-- The file descriptors of a run: two pipes, a fork, and what the parent and the child close.
use mathlib.Core.Option
use capnp_ls.Prelude.{
  ℕ, zero, suc, ◌+◌, Bool, ◌==◌, if◌then◌else◌, Option, none, some, List, [], ◌∷◌,
}

-- What a descriptor stands for: an end of a numbered pipe, or anything else.
pub data End : Type 0 where
  read_end : ℕ → End
  write_end : ℕ → End
  other_end : ℕ → End

-- The table of a process, with a place for every descriptor that it may have.
abbrev pub Table : Type 0
Table = List (Option End)

abbrev pub held : Table → ℕ → Option End
held [] fd = none
held (x ∷ t) zero = x
held (x ∷ t) (suc fd) = held t fd

abbrev pub set : Table → ℕ → Option End → Table
set [] fd x = []
set (y ∷ t) zero x = x ∷ t
set (y ∷ t) (suc fd) x = y ∷ set t fd x

-- The lowest descriptor that is free.
unfoldable pub first_free : Table → Option ℕ
first_free [] = none
first_free (none ∷ t) = some 0
first_free (some x ∷ t) = Option.map suc (first_free t)

-- `pipe`, which fails where the table is full. The first of its descriptors is released then.
unfoldable pub make_pipe : ℕ → Table → Option (ℕ × ℕ × Table)
make_pipe pipe t = elim (first_free t) [
  | none ↦ none
  | some r ↦
      let t' = set t r (some (read_end pipe)) in
      elim (first_free t') [ none ↦ none | some w ↦ some (r, w, set t' w (some (write_end pipe))) ]
]

abbrev pub close : ℕ → Table → Table
close fd t = set t fd none

abbrev pub dup2 : ℕ → ℕ → Table → Table
dup2 old new t = if old == new then t else set t new (held t old)

-- The parent closes the write ends. `wrapInputFd` without TAKE_OWNERSHIP never closes the others.
unfoldable pub parent_table : ℕ → ℕ → Table → Table
parent_table pipe_1 err_1 t = close err_1 (close pipe_1 t)

unfoldable pub child_table : ℕ → ℕ → ℕ → ℕ → Table → Table
child_table pipe_0 pipe_1 err_0 err_1 t =
    let out = close pipe_1 (dup2 pipe_1 1 (close pipe_0 t)) in
    close err_1 (dup2 err_1 2 (close err_0 out))

-- What `run` leaves: on a failure the table that the exception leaves behind.
pub data Launch : Type 0 where
  failed : Table → Launch
  launched : (parent child : Table) (output errors : ℕ) → Launch

abbrev pub fork_launch : Bool → ℕ → ℕ → ℕ → ℕ → Table → Launch
fork_launch forks pipe_0 pipe_1 err_0 err_1 t =
    if forks
    then launched (parent_table pipe_1 err_1 t) (child_table pipe_0 pipe_1 err_0 err_1 t) pipe_0
        err_0
    else failed t

-- `run` from its pipes on; the pipes are numbered, `forks` says whether fork succeeds.
unfoldable pub launch : Bool → ℕ → Table → Launch
unfolding make_pipe
launch forks pipe t = elim (make_pipe pipe t) [
  | none ↦ failed t
  | some (pipe_0, pipe_1, t1) ↦ elim (make_pipe (pipe + 1) t1) [
    | none ↦ failed t1
    | some (err_0, err_1, t2) ↦ fork_launch forks pipe_0 pipe_1 err_0 err_1 t2
  ]
]
