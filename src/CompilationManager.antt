-- ===== src/CompilationManager.antt =====
-- compilation_manager.cpp: the version check, the command line, and `compile` over a run of the
-- compiler, the parser of its errors and the resolver of its output.
pub mod Version
pub mod Command
pub mod Compile
pub mod Effects
pub mod Refusals
pub mod Unheard
pub mod Sample
mod Tests
use capnp_ls.Prelude.{
  ℕ, ◌^◌, Bool, true, false, ◌&&◌, ◌||◌, ◌==◌, ltb, leb, not, if◌then◌else◌, Option, none, some,
  List, [], ◌∷◌, ◌++◌, map, Bytes, bytes, drop, length, ◌+◌, starts_with, ends_with, Regex, class,
  many, seq, optional, capture, Groups, group, regex_search, Result, ok, thrown,
}
use capnp_ls.SubprocessRunner.{
  Processes, RunParams, RunResult, Status, success, workdir_error, execution_error,
  compilation_error, set_working_directory, run,
}
use capnp_ls.CompileErrorParser.{
  is_digit, is_byte, some_of, dash, ◌>>>◌, atoi, matched, c_str, DiagnosticMap, parse,
}
use capnp_ls.SymbolResolver.{Filesystem}
use capnp_ls.SymbolResolver.Resolve.{Request, Node, Symbols, resolve}

-- The pattern `(\d+)\.(\d+)(?:\.\d+)?(?:-[a-zA-Z0-9]+)?` behind the tool's name.
abbrev pub version_name : Bytes
version_name = bytes "Cap'n Proto version "

unfoldable pub is_alnum : ℕ → Bool
unfolding is_digit
is_alnum c = is_digit c || (leb b'a' c && leb c b'z') || (leb b'A' c && leb c b'Z')

abbrev pub dot : Regex
dot = class (is_byte b'.')

abbrev pub version_numbers : Regex
version_numbers =
    capture 1 (some_of is_digit)
    >>> dot
    >>> capture 2 (some_of is_digit)
    >>> optional (dot >>> some_of is_digit)
    >>> optional (dash >>> some_of is_alnum)

abbrev pub literal : Bytes → Regex → Regex
literal [] r = r
literal (c ∷ cs) r = class (is_byte c) >>> literal cs r

abbrev pub version_regex : Regex
version_regex = literal version_name version_numbers

-- `std::stoi` on digits; it throws std::out_of_range past INT_MAX.
unfoldable pub stoi : Bytes → Option ℕ
stoi digits = let n = atoi digits in if ltb n (2 ^ 31) then some n else none

unfoldable pub is_supported : Option ℕ → Option ℕ → Bool
is_supported none minor = false
is_supported (some major) none = false
is_supported (some major) (some minor) = if ltb 1 major then true else (major == 1 && leb 1 minor)

unfoldable pub read_version : Option Groups → Bool
unfolding stoi is_supported group
read_version none = false
read_version (some gs) = is_supported (stoi (matched (group 1 gs))) (stoi (matched (group 2 gs)))

-- What the code does with `textOutput`; an empty text is "no version output".
unfoldable pub is_compatible_output : Bytes → Bool
unfolding read_version regex_search c_str
is_compatible_output [] = false
is_compatible_output (c ∷ cs) = read_version (regex_search version_regex (c_str (c ∷ cs)))

abbrev pub is_success : Status → Bool
is_success success = true
is_success workdir_error = false
is_success execution_error = false
is_success compilation_error = false

pub record CompilationManager : Type 0 where
  pub is_capnp_version_compatible : Bool

-- The parameters that are read; the maps are the state `Compiled`.
pub record CompileParams : Type 0 where
  pub compiler_path : Bytes
  pub import_paths : List Bytes
  pub file_name : Bytes
  pub working_dir : Bytes

pub record Compiled : Type 0 where
  pub symbols : Symbols
  pub diagnostic_map : DiagnosticMap

-- `buildCommand`; `bundled` is BUNDLED_CAPNP_EXECUTABLE, where it is defined.
unfoldable pub compiler_of : Option Bytes → Bytes → Bytes
compiler_of none [] = bytes "capnp"
compiler_of (some path) [] = path
compiler_of bundled (c ∷ cs) = c ∷ cs

unfoldable pub contains : ℕ → Bytes → Bool
contains x [] = false
contains x (c ∷ cs) = c == x || contains x cs

unfoldable pub quoted : Bytes → Bytes
unfolding contains
quoted arg = if contains 32 arg || contains 9 arg then b'"' ∷ (arg ++ (b'"' ∷ [])) else arg

-- The loop that joins the arguments; the first is the text so far.
unfoldable pub join_args : Bytes → List Bytes → Bytes
unfolding quoted
join_args text [] = text
join_args [] (arg ∷ args) = join_args (quoted arg) args
join_args (c ∷ cs) (arg ∷ args) = join_args ((c ∷ cs) ++ (32 ∷ quoted arg)) args

unfoldable pub command_args : Bytes → CompileParams → List Bytes
command_args compiler_path params =
    compiler_path
    ∷ bytes "compile"
    ∷ (map (λ path. bytes "-I" ++ path) params.import_paths
        ++ (bytes "-o-" ∷ params.file_name ∷ []))

unfoldable pub build_command : Option Bytes → CompileParams → Option Bytes
unfolding compiler_of join_args command_args ends_with
build_command bundled params =
    let compiler_path = compiler_of bundled params.compiler_path in
    if not (ends_with (bytes "capnp") compiler_path)
    then none
    else some (join_args [] (command_args compiler_path params))

-- `strippedUri`. That the file is the directory itself, where slice would pass its end, is not
-- modelled.
unfoldable pub strip_working_dir : Bytes → Bytes → Bytes
unfolding starts_with
strip_working_dir working_dir file_name =
    if starts_with working_dir file_name then drop (length working_dir + 1) file_name else file_name

module _ {Reader : Type 0} (os : Processes Reader) (fs : Filesystem)
    (load : List Node → Result (Unit {0})) (request_of : Reader → Result Request)
    (bundled : Option Bytes) where
  unfoldable pub check_result : Result (RunResult Reader) → Bool
  unfolding is_compatible_output
  check_result thrown = false
  check_result (ok result) =
      if not (is_success result.status) then false else is_compatible_output result.text_output

  abbrev pub version_params : Bytes → RunParams
  version_params compiler_path = record {
    command = compiler_path ++ bytes " --version";
    working_dir = bytes ".";
    is_capnp_message_output = false;
  }

  -- The run of the check throws before its first wait: then `compile` throws, and returns no promise.
  unfoldable pub check_throws : Bytes → CompilationManager → Bool
  unfolding set_working_directory
  check_throws [] m = false
  check_throws (c ∷ cs) m =
      not m.is_capnp_version_compatible
      && set_working_directory os (bytes ".")
      && not (os.launches (version_params (c ∷ cs)).command)

  unfoldable pub check_at : Bytes → CompilationManager → Bool × CompilationManager
  unfolding check_result run
  check_at [] m = (false, m)
  check_at (c ∷ cs) m =
      let compatible = check_result (run os (version_params (c ∷ cs))) in
      (compatible, record m { is_capnp_version_compatible = compatible })

  -- `checkCapnpVersionCompatible`
  unfoldable pub check_capnp_version_compatible :
      Bytes → CompilationManager → Bool × CompilationManager
  unfolding check_at
  check_capnp_version_compatible compiler_path m =
      if m.is_capnp_version_compatible then (true, m) else check_at compiler_path m

  unfoldable pub resolve_request : CompileParams → Result Request → Symbols → Symbols
  unfolding resolve
  resolve_request params thrown s = s
  resolve_request params (ok request) s =
      (resolve fs params.import_paths params.working_dir load request s).1

  unfoldable pub handle_reader : CompileParams → Option Reader → Compiled → Compiled
  unfolding resolve_request
  handle_reader params none c = c
  handle_reader params (some reader) c = record c {
    symbols = resolve_request params (request_of reader) c.symbols;
  }

  -- The continuation of the run, and its `catch_`.
  unfoldable pub handle_result :
      CompileParams → Bytes → Result (RunResult Reader) → Compiled → Compiled
  unfolding handle_reader parse
  handle_result params file_name thrown c = c
  handle_result params file_name (ok result) c =
      if not (result.exit_code == 0)
      then record c { diagnostic_map = (parse file_name result.error_text c.diagnostic_map).1 }
      else handle_reader params result.maybe_reader c

  unfoldable pub run_command : CompileParams → Option Bytes → Compiled → Compiled
  unfolding handle_result run strip_working_dir
  run_command params none c = c
  run_command params (some command) c =
      let run_params : RunParams = record {
        command = command;
        working_dir = params.working_dir;
        is_capnp_message_output = true;
      } in
      handle_result params (strip_working_dir params.working_dir params.file_name)
        (run os run_params) c

  unfoldable pub compile_checked : CompileParams → Bool → Compiled → Compiled
  unfolding run_command build_command
  compile_checked params false c = c
  compile_checked params true c =
      run_command params (build_command bundled params) (record c { diagnostic_map = [] })

  -- `compile`, where the check does not throw.
  unfoldable pub compile :
      CompileParams → CompilationManager × Compiled → CompilationManager × Compiled
  unfolding check_capnp_version_compatible compile_checked
  compile params (m, c) =
      let (compatible, checked) = check_capnp_version_compatible params.compiler_path m in
      (checked, compile_checked params compatible c)
