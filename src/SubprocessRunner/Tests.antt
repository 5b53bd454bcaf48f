-- ===== src/SubprocessRunner/Tests.antt =====
-- Runs of `buildArgs` and of launches, and the theorems of both at such commands and tables.
use capnp_ls.Prelude.{
  Bytes, bytes, List, [], ◌∷◌, ◌≡◌, refl, some, none, true, false, ◌+◌, ◌*◌, leb, arith,
}
use capnp_ls.SubprocessRunner.{build_args, skip_spaces, token, after_token}
use capnp_ls.SubprocessRunner.Descriptors.{
  read_end, other_end, Table, held, launch, Launch, launched, make_pipe, first_free, parent_table,
}
use capnp_ls.SubprocessRunner.Inherited.{launch_lem}
use capnp_ls.SubprocessRunner.Exhausted.{can_launch, can_launch_lem, after_launch}
use capnp_ls.SubprocessRunner.Args.{AllWords, joined, build_args-joined}

-- Quotes are no quotes to the split.
build_args_runs :
    build_args (bytes " capnp  \"a b\" ") ≡ some (bytes "capnp" ∷ bytes "\"a" ∷ bytes "b\"" ∷ [])
unfolding build_args skip_spaces token after_token
build_args_runs = refl

abbrev two_words : List Bytes
two_words = bytes "ls" ∷ bytes "x" ∷ []

two_words-AllWords : AllWords two_words
two_words-AllWords = (((λ p. cc), omega arith), (((λ p. cc), omega arith), tt))

build_args-joined_example : build_args (joined two_words) ≡ some two_words
build_args-joined_example = build_args-joined two_words two_words-AllWords

-- A process with its three standard descriptors, and nine places more.
abbrev fresh : Table
fresh =
    some (other_end 0)
    ∷ some (other_end 1)
    ∷ some (other_end 2)
    ∷ none
    ∷ none
    ∷ none
    ∷ none
    ∷ none
    ∷ none
    ∷ none
    ∷ none
    ∷ none
    ∷ []

abbrev parent_of : Launch → Table
parent_of (launched parent child output errors) = parent
parent_of other = []

abbrev child_of : Launch → Table
child_of (launched parent child output errors) = child
child_of other = []

launch_runs :
    launch true 0 fresh
    ≡ launched (parent_of (launch true 0 fresh)) (child_of (launch true 0 fresh)) 3 5
unfolding launch make_pipe first_free
launch_runs = refl

launch_lem_example :
    (held (child_of (launch true 0 fresh)) 3 ≡ none)
    × (held (parent_of (launch true 0 fresh)) 3 ≡ some (read_end 0))
launch_lem_example =
    launch_lem true 0 fresh (parent_of (launch true 0 fresh)) (child_of (launch true 0 fresh)) 3 5
      (other_end 1) (other_end 2) refl refl launch_runs 3

can_launch_runs : (can_launch 3 0 fresh ≡ true) × (can_launch 4 0 fresh ≡ false)
unfolding can_launch launch make_pipe first_free parent_table after_launch
can_launch_runs = (refl, refl)

can_launch_lem_example : can_launch 5 0 fresh ≡ leb (2 * 4 + 4 + 3) 12
can_launch_lem_example = can_launch_lem 4 0 fresh
