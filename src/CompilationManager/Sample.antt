-- ===== src/CompilationManager/Sample.antt =====
-- A compiler that reports version 1.1.0 and fails otherwise, for the runs of the manager and of its
-- client.
use capnp_ls.Prelude.{
  List, [], ◌∷◌, ◌==◌, some, Bytes, bytes, true, false, not, Result, ok, same, if◌then◌else◌,
  length,
}
use capnp_ls.SubprocessRunner.{Processes, Finished, ran, returned, enoent}
use capnp_ls.SymbolResolver.Resolve.{Request, Node}
use capnp_ls.SymbolResolver.Sample.{workspace, request, no_symbols}
use capnp_ls.CompilationManager.{CompilationManager, CompileParams, Compiled}

abbrev pub version_run : Finished
version_run = record {
  wait_status = 0;
  output = bytes "Cap'n Proto version 1.1.0";
  error_output = [];
}

abbrev pub failed_run : Finished
failed_run = record {
  wait_status = 256;
  output = [];
  error_output = bytes "a.capnp:2:3-5: error: Not defined";
}

-- Any command of two words asks for the version.
abbrev pub capnp : Processes (Unit {0})
capnp = record {
  enter = λ dir. not (same dir (bytes "/gone"));
  launches = λ command. true;
  execv = λ program args. ran (if length args == 2 then version_run else failed_run);
  execvp = λ program args. returned enoent;
  no_program = returned enoent;
  second_server = failed_run;
  try_read_message = λ output. ok (some tt);
}

abbrev pub load : List Node → Result (Unit {0})
load nodes = ok tt

abbrev pub request_of : Unit {0} → Result Request
request_of reader = ok request

abbrev pub found : CompilationManager
found = record { is_capnp_version_compatible = true }

abbrev pub unchecked : CompilationManager
unchecked = record { is_capnp_version_compatible = false }

abbrev pub params_for : Bytes → Bytes → CompileParams
params_for file dir = record {
  compiler_path = bytes "/bin/capnp";
  import_paths = bytes "/inc" ∷ [];
  file_name = file;
  working_dir = dir;
}

abbrev pub a_params : CompileParams
a_params = params_for (bytes "/w/a.capnp") workspace

abbrev pub no_path : CompileParams
no_path = record a_params { compiler_path = [] }

abbrev pub gone_params : CompileParams
gone_params = record a_params { working_dir = bytes "/gone" }

abbrev pub nothing : Compiled
nothing = record { symbols = no_symbols; diagnostic_map = [] }
