-- ===== src/SubprocessRunner.antt =====
-- subprocess_runner.cpp: the splitting of a command, and `run`, the child's side and the parent's.
-- What the operating system does and what a process prints and returns are parameters.
pub mod Args
pub mod Descriptors
pub mod Tables
pub mod Launches
pub mod Closing
pub mod Inherited
pub mod Exhausted
mod Tests
use capnp_ls.Prelude.{
  ℕ, zero, suc, Bool, true, false, ◌==◌, if◌then◌else◌, Option, none, some, List, [], ◌∷◌, Bytes,
  bytes, starts_with, length, ◌+◌, ◌/◌, ◌%◌, not, Result, ok, thrown, ◌>>=◌,
}

abbrev pub space : ℕ
space = 32

-- `while (command[start] == ' ') start++`
unfoldable pub skip_spaces : Bytes → Bytes
skip_spaces [] = []
skip_spaces (c ∷ cs) = let skipped = skip_spaces cs in if c == space then skipped else c ∷ cs

-- `while (command[end] != ' ') end++`: the token, and what follows it.
unfoldable pub token : Bytes → Bytes
token [] = []
token (c ∷ cs) = let more = token cs in if c == space then [] else c ∷ more

unfoldable pub after_token : Bytes → Bytes
after_token [] = []
after_token (c ∷ cs) = let later = after_token cs in if c == space then c ∷ cs else later

unfoldable pub add_arg : Bytes → Option (List Bytes) → Option (List Bytes)
add_arg arg none = none
add_arg arg (some args) = some (arg ∷ args)

-- The outer loop on fuel; `none` means that the fuel ran out.
unfoldable pub split_args : ℕ → Bytes → Option (List Bytes)
unfolding add_arg
split_args zero command = none
split_args (suc fuel) command = elim (skip_spaces command) [
  | [] ↦ some []
  | c ∷ cs ↦ add_arg (token (c ∷ cs)) (split_args fuel (after_token (c ∷ cs)))
]

-- `buildArgs`
unfoldable pub build_args : Bytes → Option (List Bytes)
unfolding split_args
build_args command = split_args (length command + 1) command

pub record RunParams : Type 0 where
  pub command : Bytes
  pub working_dir : Bytes
  pub is_capnp_message_output : Bool

pub data Status : Type 0 where
  success workdir_error execution_error compilation_error : Status

-- `Reader` stands for capnp::MessageReader.
pub record RunResult (Reader : Type 0) : Type 0 where
  pub status : Status
  pub exit_code : ℕ
  pub maybe_reader : Option Reader
  pub text_output : Bytes
  pub error_text : Bytes

-- A process that ended: what it wrote, and its status as `waitpid` gives it.
pub record Finished : Type 0 where
  pub wait_status : ℕ
  pub output : Bytes
  pub error_output : Bytes

-- `execv` or `execvp`: the program runs to its end, or the call returns with an errno.
pub data Exec : Type 0 where
  ran : Finished → Exec
  returned : ℕ → Exec

-- What the operating system does for a run, and `capnp::tryReadMessage` on the output, which may
-- throw. `second_server` is what a copy of the server that goes on in the child writes to the pipes,
-- and its status. An empty argv is read at 0, which is undefined: `no_program` is what it leads to.
-- `launches`: the two pipes are made and `fork` succeeds for this command; else `run` throws at once.
pub record Processes (Reader : Type 0) : Type 0 where
  pub enter : Bytes → Bool
  pub launches : Bytes → Bool
  pub execv : Bytes → List Bytes → Exec
  pub execvp : Bytes → List Bytes → Exec
  pub no_program : Exec
  pub second_server : Finished
  pub try_read_message : Bytes → Result (Option Reader)

abbrev pub enoent : ℕ
enoent = 2

-- `_exit(1)`, with nothing written, since the child logs only what is fatal.
abbrev pub exited_1 : Finished
exited_1 = record { wait_status = 256; output = []; error_output = [] }

-- WEXITSTATUS
abbrev pub exit_status : ℕ → ℕ
exit_status status = (status / 256) % 256

module _ {Reader : Type 0} (os : Processes Reader) where
  -- `setWorkingDirectory`; an empty StringPtr is equal to nullptr.
  unfoldable pub set_working_directory : Bytes → Bool
  set_working_directory [] = false
  set_working_directory (c ∷ cs) = os.enter (c ∷ cs)

  -- The two readers of `outputPromise`.
  unfoldable pub read_output : Bool → Bytes → Result (Option Reader × Bytes)
  read_output true output = do reader ← os.try_read_message output; ok (reader, [])
  read_output false output = ok (none, output)

  -- The parent's side of `run` behind `fork`.
  unfoldable pub collect : RunParams → Finished → Result (RunResult Reader)
  unfolding read_output
  collect params done = do
    (reader, text) ← read_output params.is_capnp_message_output done.output
    ok (record {
      status = success;
      exit_code = exit_status done.wait_status;
      maybe_reader = reader;
      text_output = text;
      error_text = done.error_output;
    })

  -- The choice between the two calls.
  unfoldable pub exec : List Bytes → Exec
  unfolding starts_with
  exec [] = os.no_program
  exec (program ∷ args) =
      if starts_with (bytes "/") program
      then os.execv program (program ∷ args)
      else os.execvp program (program ∷ args)

  -- The child behind the call: on another errno than ENOENT, KJ_FAIL_SYSCALL throws out of `run`, and
  -- the promises of the child's copy of the server catch it.
  unfoldable pub child_end : Exec → Finished
  child_end (ran done) = done
  child_end (returned error) = if error == enoent then exited_1 else os.second_server

  unfoldable pub start : RunParams → Option (List Bytes) → Result (RunResult Reader)
  unfolding collect exec child_end
  start params none = thrown
  start params (some argv) = collect params (child_end (exec argv))

  -- `run`. The fields that the early return leaves out are empty, the exit code is 0.
  unfoldable pub run : RunParams → Result (RunResult Reader)
  unfolding set_working_directory start build_args
  run params =
      if not (set_working_directory params.working_dir)
      then ok (record {
        status = workdir_error;
        exit_code = 0;
        maybe_reader = none;
        text_output = [];
        error_text = [];
      })
      else if not (os.launches params.command)
      then thrown
      else start params (build_args params.command)
