-- ===== src/SymbolResolver/Sample.antt =====
-- A directory of files and a request, for the runs of the resolver and of its clients.
use capnp_ls.Prelude.{
  [], ◌∷◌, ◌++◌, ◌+◌, ◌<◌, length, Bytes, bytes, ◌≡◌, true, false, arith, ok, same, subst,
}
use capnp_ls.LspTypes.{Range}
use capnp_ls.SymbolResolver.{Filesystem, u32_mod}
use capnp_ls.SymbolResolver.Resolve.{Identifier, Node, Request, Symbols}
use capnp_ls.SymbolResolver.Locations.{HasShortFiles}

abbrev pub schema : Bytes
schema = bytes "ab" ++ (10 ∷ bytes "cde")

abbrev pub workspace : Bytes
workspace = bytes "/w"

-- "/w/a.capnp" is in the directory of the process, "/lib/b.capnp" below an import path.
abbrev pub disk : Filesystem
disk = record {
  FilePath = Bytes;
  File = Unit;
  parse_path = ok;
  eval = λ base path. ok (base ++ (bytes "/" ++ path));
  eval_native = λ base path. ok (bytes "/" ++ (base ++ (bytes "/" ++ path)));
  to_native_string = λ path. path;
  current_path = workspace;
  exists_in_current = same (bytes "a.capnp");
  exists_in_root = same (bytes "/lib/b.capnp");
  open_file = λ path. ok tt;
  read_all_text = λ file. ok schema;
}

pub short_disk : HasShortFiles disk
short_disk file text e =
    let same_text : schema ≡ text = cc in
    subst (λ t. length t + 1 < u32_mod) same_text (omega arith)

-- A file node with one identifier, a struct, and a struct that stands for a method's parameters.
abbrev pub file_node : Node
file_node = record { id = 1; is_file = true; display_name = bytes "a.capnp" }

abbrev pub struct_node : Node
struct_node = record { id = 2; is_file = false; display_name = bytes "a.capnp:S" }

abbrev pub params_node : Node
params_node = record { id = 3; is_file = false; display_name = bytes "a.capnp:f$Params" }

abbrev pub identifier : Identifier
identifier = record { start_byte = 3; end_byte = 5; type_id = 2 }

abbrev pub request : Request
request = record {
  requested_files = record { id = 1; identifiers = identifier ∷ [] } ∷ [];
  nodes = file_node ∷ struct_node ∷ params_node ∷ [];
  source_info = record { id = 2; start_byte = 0; end_byte = 5 } ∷ [];
}

abbrev pub no_symbols : Symbols
no_symbols = record { position_to_node_id = []; node_location = [] }

abbrev pub identifier_range : Range
identifier_range = record {
  start = record { line = 2; character = 1 };
  end = record { line = 2; character = 3 };
}
