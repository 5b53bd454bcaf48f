-- ===== src/LspMessageHandler/Sample.antt =====
-- A world and a handler for the runs of the handler and of the server.
use capnp_ls.Prelude.{[], ◌∷◌, none, bytes, ◌≡◌, refl, subst, length, arith, true, ok, thrown}
use capnp_ls.LspTypes.{lsp_method, lsp_id, lsp_params}
use capnp_ls.SymbolResolver.Sample.{disk, workspace}
use capnp_ls.CompilationManager.Sample.{capnp, load, request_of, found, nothing}
use capnp_ls.LspMessageHandler.Json.{
  whole, JsonValue, number_value, string_value, object_value, no_fields, field_and, Mismatch,
}
use capnp_ls.LspMessageHandler.Initialize.{Config}
use capnp_ls.LspMessageHandler.Handlers.{Handler, World}
use capnp_ls.StdinReader.{is_digit, digits_from}
use capnp_ls.StdinReader.Frames.{IsLength}
use capnp_ls.LspMessageHandler.Publish.{Output}
use capnp_ls.LspMessageHandler.Invariants.{PrintsLengths}

-- An encoder to the same two bytes, and their number.
abbrev pub short_output : Output
short_output = record { encode = λ value. ok (bytes "{}"); decimal = λ n. bytes "2" }

two-IsLength : IsLength (bytes "2")
unfolding digits_from is_digit
two-IsLength = record { all_digits = ground arith; not_empty = λ e. cc; in_range = omega arith }

two_lem : digits_from 0 (bytes "2") ≡ 2
unfolding digits_from is_digit
two_lem = refl

pub short_output-PrintsLengths : PrintsLengths short_output
short_output-PrintsLengths value body e =
    let same_body : bytes "{}" ≡ body = cc in
    (two-IsLength, subst (λ b. digits_from 0 (bytes "2") ≡ length b) same_body two_lem)

-- Values of another kind than is asked for throw.
abbrev pub strict : Mismatch
strict = record {
  as_object = λ value. thrown;
  as_array = λ value. thrown;
  as_string = λ value. thrown;
  as_number = λ value. thrown;
  other_plus_one = λ bits. 0;
}

abbrev pub save_params : JsonValue
save_params = object_value (
    field_and (bytes "textDocument")
      (object_value (field_and (bytes "uri") (string_value (bytes "file:///w/a.capnp")) no_fields))
      no_fields)

abbrev pub save_message : JsonValue
save_message = object_value (
    field_and lsp_method (string_value (bytes "textDocument/didSave"))
      (field_and lsp_id (number_value (whole 1)) (field_and lsp_params save_params no_fields)))

abbrev pub world : World (Unit {0})
world = record {
  os = capnp;
  fs = disk;
  load = load;
  request_of = request_of;
  bundled = none;
  mismatch = strict;
  output = short_output;
  decode = λ text. ok save_message;
}

abbrev pub config : Config
config = record {
  workspace_path = workspace;
  compiler_path = bytes "/bin/capnp";
  import_paths = bytes "/inc" ∷ [];
}

abbrev pub handler : Handler
handler = record {
  config = config;
  compiled = nothing;
  manager = found;
  written = [];
  shut_down = true;
}

abbrev pub definition_params : JsonValue
definition_params = object_value (
    field_and (bytes "textDocument")
      (object_value (field_and (bytes "uri") (string_value (bytes "file:///w/a.capnp")) no_fields))
      (field_and (bytes "position")
        (object_value (
          field_and (bytes "line") (number_value (whole 1))
            (field_and (bytes "character") (number_value (whole 1)) no_fields)))
        no_fields))

abbrev pub definition_message : JsonValue
definition_message = object_value (
    field_and lsp_method (string_value (bytes "textDocument/definition")) (
      field_and lsp_id (number_value (whole 1)) (field_and lsp_params definition_params no_fields)))

abbrev pub asked : World (Unit {0})
asked = record world { decode = λ text. ok definition_message }
