-- ===== src/LspMessageHandler/NavigationTests.antt =====
-- A definition request behind a run of the compiler, on the sample directory.
use capnp_ls.Prelude.{
  if◌then◌else◌, some, ok, [], ◌∷◌, none, bytes, ◌≡◌, refl, arith, same, starts_with, ends_with,
  find, upsert, erase, inl, true,
}
use capnp_ls.LspTypes.{Location, position_eq, range_eq}
use capnp_ls.LspTypes.{lsp_method, lsp_params, try_parse_lsp_method, method_name}
use capnp_ls.StdinReader.{is_digit}
use capnp_ls.StdinReader.Numbers.{AllDigits}
use capnp_ls.StdinReader.Frames.{framed}
use capnp_ls.LspMessageHandler.Messages.{read_message, read_field, read_id, handle_message}
use capnp_ls.LspMessageHandler.Handlers.{saved_uri, uri_of_object, first_uri, or_later}
use capnp_ls.LspMessageHandler.Induction.{wrote}
use capnp_ls.LspMessageHandler.Goto.{IsSave, IsDefinition, handle_message-definition_saved}
use capnp_ls.Utils.{uri_to_path}
use capnp_ls.SubprocessRunner.{
  Finished, ran, run, exec, build_args, skip_spaces, after_token, token,
}
use capnp_ls.SymbolResolver.{
  extract_file_path, before_colon, relative_path, search_imports, get_position_in_file, advance,
}
use capnp_ls.SymbolResolver.Resolve.{
  add_identifier, add_location, clear_file, file_infos, source_infos, is_parameter_struct,
  range_in_file, resolve_identifiers, resolve_file, resolve_symbol, resolve_node, resolve_nodes,
  resolve,
}
use capnp_ls.SymbolResolver.Named.{Names, Declares}
use capnp_ls.SymbolResolver.Sample.{
  disk, short_disk, workspace, request, file_node, struct_node, params_node, identifier,
  identifier_range, no_symbols,
}
use capnp_ls.CompilationManager.{CompileParams, check_capnp_version_compatible, build_command}
use capnp_ls.CompilationManager.Effects.{Succeeds}
use capnp_ls.CompilationManager.Sample.{capnp, load, request_of}
use capnp_ls.LspMessageHandler.Json.{
  whole, JsonValue, string_value, object_value, no_fields, field_and, with, each_field, get_object,
  get_string,
}
use capnp_ls.LspMessageHandler.Definition.{
  read_query, read_definition_param, read_document_uri, read_position, holds_position,
}
use capnp_ls.LspMessageHandler.Sample.{
  world, handler, save_params, definition_params, definition_message,
}
use capnp_ls.LspMessageHandler.Handlers.{World, compile_params, compiles, compile_capnp_file}

abbrev struct_place : Location
struct_place = record {
  uri = bytes "/w/a.capnp";
  range = record {
    start = record { line = 1; character = 1 };
    end = record { line = 2; character = 3 };
  };
}

struct_named :
    Names disk
      (bytes "/inc" ∷ [])
      workspace
      request
      (bytes "/w/a.capnp")
      (λ range. holds_position range 2 2)
      2
unfolding extract_file_path before_colon relative_path search_imports starts_with same find
    file_infos range_in_file get_position_in_file advance holds_position upsert
struct_named = record {
  before = [];
  node = file_node;
  after = struct_node ∷ params_node ∷ [];
  among = refl;
  of_file = refl;
  found = refl;
  last = ((λ k. cc), ((λ k. cc), tt));
  identifiers = identifier ∷ [];
  listed = refl;
  range = identifier_range;
  passes = refl;
  some_name = inl (refl, refl);
  all_name = ((λ r e h. refl), tt);
}

struct_declared : Declares disk (bytes "/inc" ∷ []) workspace request 2 struct_place
unfolding extract_file_path before_colon relative_path search_imports starts_with same find
    source_infos range_in_file get_position_in_file advance is_parameter_struct ends_with upsert
struct_declared = record {
  before = file_node ∷ [];
  node = struct_node;
  after = params_node ∷ [];
  among = refl;
  same_id = refl;
  of_symbol = refl;
  no_parameters = refl;
  found = refl;
  last = ((λ e. omega arith), tt);
  info = record { id = 2; start_byte = 0; end_byte = 5 };
  listed = refl;
  ranged = refl;
}

request_resolves : (resolve disk (bytes "/inc" ∷ []) workspace load request no_symbols).0 ≡ 0
unfolding resolve resolve_nodes resolve_node resolve_file resolve_symbol resolve_identifiers
    is_parameter_struct file_infos source_infos range_in_file get_position_in_file advance
    add_identifier add_location clear_file find upsert erase same ends_with starts_with position_eq
    range_eq extract_file_path before_colon relative_path search_imports
request_resolves = refl

-- A compiler that ends with exit code 0.
abbrev clean_run : Finished
clean_run = record { wait_status = 0; output = []; error_output = [] }

abbrev compiling : World (Unit {0})
compiling = record world { os = record capnp { execv = λ program args. ran clean_run } }

abbrev with_path : CompileParams
with_path = compile_params compiling (bytes "/w/a.capnp") handler.config

compiler-Succeeds : Succeeds compiling.os disk load request_of none with_path request
unfolding build_command build_args run exec same skip_spaces after_token token
compiler-Succeeds = record {
  command = _;
  result = _;
  reader = tt;
  built = refl;
  ran = refl;
  exit_code = refl;
  read = refl;
  decoded = refl;
}

abbrev save_note : JsonValue
save_note = object_value (
    field_and lsp_method (string_value (bytes "textDocument/didSave"))
      (field_and lsp_params save_params no_fields))

abbrev client : World (Unit {0})
client = record compiling {
  decode = λ text. if same text (bytes "s") then ok save_note else ok definition_message;
}

schema_compiles : compiles client (bytes "file:///w/a.capnp") handler ≡ true
unfolding compiles ends_with uri_to_path
schema_compiles = refl

one-AllDigits : AllDigits (bytes "1")
unfolding is_digit
one-AllDigits = ground arith

note-IsSave : IsSave client (framed (bytes "1") (bytes "s")) (bytes "file:///w/a.capnp")
unfolding read_message read_field read_id with each_field get_object get_string same
    try_parse_lsp_method saved_uri uri_of_object first_uri or_later method_name
note-IsSave = record {
  digits = bytes "1";
  text = bytes "s";
  root = save_note;
  u = tt;
  members = _;
  frame = refl;
  all_digits = one-AllDigits;
  decodes = refl;
  reads = refl;
  no_id = refl;
  method = refl;
  object = refl;
  names_uri = refl;
}

ask-IsDefinition : IsDefinition client (framed (bytes "1") (bytes "d")) (whole 1) definition_params
unfolding read_message read_field read_id with each_field get_object get_string same
    try_parse_lsp_method method_name
ask-IsDefinition = record {
  digits = bytes "1";
  text = bytes "d";
  root = definition_message;
  u = tt;
  frame = refl;
  all_digits = one-AllDigits;
  decodes = refl;
  reads = refl;
  has_id = refl;
  method = refl;
  has_params = refl;
}

handle_message-definition_saved_example :
    handle_message client
      (some (framed (bytes "1") (bytes "d")))
      (handle_message client (some (framed (bytes "1") (bytes "s"))) handler)
    ≡ wrote client (bytes "{}") (compile_capnp_file client (bytes "file:///w/a.capnp") handler)
unfolding read_query read_definition_param read_document_uri read_position with each_field
    get_object get_string same uri_to_path check_capnp_version_compatible
handle_message-definition_saved_example =
    handle_message-definition_saved client (framed (bytes "1") (bytes "s"))
      (framed (bytes "1") (bytes "d")) (bytes "file:///w/a.capnp") handler request (whole 1)
      definition_params tt 2 struct_place (bytes "{}") note-IsSave ask-IsDefinition short_disk
      schema_compiles refl compiler-Succeeds request_resolves refl struct_named struct_declared refl
