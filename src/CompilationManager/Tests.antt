-- ===== src/CompilationManager/Tests.antt =====
-- Runs of the manager over a compiler that reports version 1.1.0.
use capnp_ls.Prelude.{
  inl, [], ◌∷◌, ◌<◌, ◌≤◌, none, some, Bytes, bytes, ◌≡◌, ◌↔◌, ◌⊎◌, true, refl, arith, same, ok,
  starts_with, ends_with,
}
use capnp_ls.SubprocessRunner.{
  Processes, Finished, ran, exec, build_args, set_working_directory, skip_spaces, token,
  after_token,
}
use capnp_ls.CompilationManager.Unheard.{killed, compile-Unheard}
use capnp_ls.CompileErrorParser.{is_digit, atoi, atoi_from}
use capnp_ls.SymbolResolver.Sample.{disk, workspace, no_symbols}
use capnp_ls.CompilationManager.{
  is_compatible_output, strip_working_dir, build_command, contains, command_args, compiler_of,
  check_capnp_version_compatible, compile,
}
use capnp_ls.CompilationManager.Sample.{
  capnp, load, request_of, found, unchecked, params_for, a_params, no_path, gone_params, nothing,
}
use capnp_ls.CompilationManager.Version.{Version, IsVersion, is_compatible_output_iff}
use capnp_ls.CompilationManager.Command.{
  IsBare, AllBare, IsNamed, build_args-build_command, build_args-build_command_space,
}
use capnp_ls.CompilationManager.Compile.{OnlyFor, strip_working_dir-append, compile-OnlyFor}
use capnp_ls.CompilationManager.Effects.{ChangesOnlyBy, compile-ChangesOnlyBy}
use capnp_ls.CompilationManager.Refusals.{compile_without_path, compile_no_directory}

abbrev version_1_1 : Version
version_1_1 = record { major = bytes "1"; minor = bytes "10"; rest = bytes ".0-dev" }

version_1_1-IsVersion : IsVersion version_1_1
unfolding is_digit atoi_from
version_1_1-IsVersion = record {
  major_digits = (refl, tt);
  major_ne_nil = λ e. cc;
  minor_digits = (refl, (refl, tt));
  minor_ne_nil = λ e. cc;
  rest_start = refl;
  rest_text = omega arith;
  major_fits = omega arith;
  minor_fits = omega arith;
}

is_compatible_output_iff_example :
    (is_compatible_output (bytes "Cap'n Proto version 1.10.0-dev") ≡ true)
    ↔ ((1 < atoi (bytes "1")) ⊎ ((atoi (bytes "1") ≡ 1) × (1 ≤ atoi (bytes "10"))))
is_compatible_output_iff_example = is_compatible_output_iff version_1_1 version_1_1-IsVersion

-- An argument without space and tab.
compiler-IsBare : IsBare (bytes "/bin/capnp")
unfolding contains
compiler-IsBare = (((λ e. cc), omega arith), refl)

imports-AllBare : AllBare (bytes "-I/inc" ∷ bytes "-o-" ∷ [])
unfolding contains
imports-AllBare = ((((λ e. cc), omega arith), refl), ((((λ e. cc), omega arith), refl), tt))

params-IsNamed : (file dir : Bytes) → IsNamed none (params_for file dir)
unfolding compiler_of ends_with starts_with
params-IsNamed file dir = record { name = refl; bare = compiler-IsBare }

a_params-IsNamed : IsNamed none a_params
a_params-IsNamed = params-IsNamed (bytes "/w/a.capnp") workspace

a_params-AllBare : AllBare (command_args (compiler_of none (bytes "/bin/capnp")) a_params)
unfolding contains command_args compiler_of
a_params-AllBare = (
  (((λ e. cc), omega arith), refl),
  (
    (((λ e. cc), omega arith), refl),
    (imports-AllBare.0, (imports-AllBare.1.0, ((((λ e. cc), omega arith), refl), tt))),
  ),
)

build_args-build_command_example :
    (command : Bytes) × (build_command none a_params ≡ some command)
    × (build_args command
        ≡ some (
            bytes "/bin/capnp"
            ∷ bytes "compile"
            ∷ bytes "-I/inc"
            ∷ bytes "-o-"
            ∷ bytes "/w/a.capnp"
            ∷ []))
unfolding command_args compiler_of
build_args-build_command_example =
    build_args-build_command none a_params a_params-IsNamed a_params-AllBare

build_args-build_command_space_example :
    (command : Bytes) × (build_command none (params_for (bytes "/w/my file.capnp") workspace)
      ≡ some command)
    × (build_args command
        ≡ some (
            bytes "/bin/capnp"
            ∷ bytes "compile"
            ∷ bytes "-I/inc"
            ∷ bytes "-o-"
            ∷ bytes "\"/w/my"
            ∷ bytes "file.capnp\""
            ∷ []))
unfolding compiler_of
build_args-build_command_space_example =
    build_args-build_command_space none (params_for (bytes "/w/my file.capnp") workspace)
      (bytes "/w/my") (bytes "file.capnp") (params-IsNamed (bytes "/w/my file.capnp") workspace)
      refl (omega arith) (omega arith) imports-AllBare

strip_working_dir-append_example :
    strip_working_dir (bytes "/work") (bytes "/workspace2/a.capnp") ≡ bytes "pace2/a.capnp"
strip_working_dir-append_example =
    strip_working_dir-append (bytes "/work") (bytes "pace2/a.capnp") b's'

compile-OnlyFor_example :
    OnlyFor
      (bytes "a.capnp")
      (compile capnp disk load request_of none a_params (found, nothing)).1.diagnostic_map
unfolding check_capnp_version_compatible strip_working_dir starts_with
compile-OnlyFor_example =
    compile-OnlyFor capnp disk load request_of none a_params found nothing refl

compile-ChangesOnlyBy_example :
    ChangesOnlyBy capnp disk load request_of none a_params no_symbols
      (compile capnp disk load request_of none a_params (found, nothing)).1.symbols
compile-ChangesOnlyBy_example =
    compile-ChangesOnlyBy capnp disk load request_of none a_params found nothing

compile_without_path_example :
    compile capnp disk load request_of (some (bytes "/opt/capnp")) no_path (unchecked, nothing)
    ≡ (unchecked, nothing)
compile_without_path_example =
    compile_without_path capnp disk load request_of (some (bytes "/opt/capnp")) no_path unchecked
      nothing refl refl

compile_no_directory_example :
    (compile capnp disk load request_of none gone_params (found, nothing)).1 ≡ nothing
unfolding check_capnp_version_compatible set_working_directory same
compile_no_directory_example =
    compile_no_directory capnp disk load request_of none gone_params found nothing refl (inl refl)

-- A compiler that SIGKILL ends.
abbrev killed_run : Finished
killed_run = record { wait_status = 9; output = []; error_output = [] }

abbrev killing : Processes (Unit {0})
killing = record capnp {
  execv = λ program args. ran killed_run;
  try_read_message = λ output. ok none;
}

compile-Unheard_example :
    (compile killing disk load request_of none a_params (found, nothing)).1 ≡ nothing
unfolding build_command build_args command_args compiler_of check_capnp_version_compatible
    skip_spaces token after_token contains exec starts_with same
compile-Unheard_example =
    compile-Unheard killing disk load request_of none a_params found nothing _ _ refl refl refl refl
      refl refl (killed killed_run refl (omega arith) refl)
