-- ===== src/LspMessageHandler/Publish.antt =====
-- `publishDiagnostics`: the notifications that it writes. The JSON encoder and kj's printing of
-- numbers are parameters.
use capnp_ls.Prelude.{ℕ, Bytes, bytes, List, [], ◌∷◌, ◌++◌, length, Result, ok, thrown}
use capnp_ls.LspTypes.{
  lsp_jsonrpc, lsp_json_rpc_version, lsp_method, lsp_params, Position, Diagnostic,
}
use capnp_ls.CompileErrorParser.{DiagnosticMap}
use capnp_ls.CompilationManager.{strip_working_dir}
use capnp_ls.StdinReader.Frames.{framed}
use capnp_ls.LspMessageHandler.Json.{
  whole, JsonValue, number_value, string_value, array_value, object_value, JsonValues, no_values,
  value_and, no_fields, field_and,
}

-- JsonCodec::encodeRaw, which may throw, and kj::str of a number.
pub record Output : Type 0 where
  pub encode : JsonValue → Result Bytes
  pub decimal : ℕ → Bytes

abbrev pub zero_based_value : Position → JsonValue
zero_based_value p = object_value (
    field_and (bytes "line") (number_value (whole p.line))
      (field_and (bytes "character") (number_value (whole p.character)) no_fields))

abbrev pub diagnostic_value : Diagnostic → JsonValue
diagnostic_value d = object_value (
    field_and (bytes "severity") (number_value (whole 1)) (
      field_and (bytes "message") (string_value d.message) (
        field_and (bytes "range")
          (object_value (
            field_and (bytes "start") (zero_based_value d.range.start)
              (field_and (bytes "end") (zero_based_value d.range.end) no_fields)))
          no_fields)))

unfoldable pub diagnostic_values : List Diagnostic → JsonValues
diagnostic_values [] = no_values
diagnostic_values (d ∷ ds) = value_and (diagnostic_value d) (diagnostic_values ds)

unfoldable pub full_uri : Bytes → Bytes → Bytes
unfolding strip_working_dir
full_uri workspace_path file =
    bytes "file://" ++ (workspace_path ++ (bytes "/" ++ strip_working_dir workspace_path file))

unfoldable pub notification : Bytes → Bytes → List Diagnostic → JsonValue
unfolding diagnostic_values full_uri
notification workspace_path file diagnostics = object_value (
    field_and lsp_jsonrpc (string_value lsp_json_rpc_version) (
      field_and lsp_method (string_value (bytes "textDocument/publishDiagnostics")) (
        field_and lsp_params
          (object_value (
            field_and (bytes "uri") (string_value (full_uri workspace_path file)) (
              field_and (bytes "diagnostics") (array_value (diagnostic_values diagnostics))
                no_fields)))
          no_fields)))

module _ (output : Output) where
  -- The header and the body of a message.
  unfoldable pub message_of : Bytes → Bytes
  unfolding framed
  message_of body = framed (output.decimal (length body)) body

  -- The loop over the map, which an exception ends.
  unfoldable pub notifications : Bytes → DiagnosticMap → List Bytes
  notifications workspace_path [] = []
  notifications workspace_path ((file, diagnostics) ∷ m) =
      elim (output.encode (notification workspace_path file diagnostics)) [
        | thrown ↦ []
        | ok body ↦ message_of body ∷ notifications workspace_path m
      ]

  -- `publishDiagnostics`: the messages that it writes, in order.
  unfoldable pub publish_diagnostics : Bytes → Bytes → DiagnosticMap → List Bytes
  unfolding notifications notification message_of
  publish_diagnostics workspace_path file [] = notifications workspace_path ((file, []) ∷ [])
  publish_diagnostics workspace_path file (entry ∷ m) = notifications workspace_path (entry ∷ m)
