-- ===== src/LspMessageHandler/Schema.antt =====
-- The messages that a language server may send to its client, as schemas of JSON values.
use capnp_ls.Prelude.{Bool, true, false, ◌&&◌, ◌||◌, Bytes, bytes, same}
use capnp_ls.LspMessageHandler.Json.{
  whole, JsonValue, null_value, number_value, string_value, array_value, object_value, JsonValues,
  no_values, value_and, JsonFields, no_fields, field_and,
}

mutual
  -- An object has the members of its schema, and no others.
  pub data Schema : Type 0 where
    any_number : Schema
    whole_number : Schema
    text : Schema
    constant : Bytes → Schema
    list_of : Schema → Schema
    object_of : Members → Schema
    object_or_null : Schema

  pub data Members : Type 0 where
    no_members : Members
    member_and : Bytes → Schema → Members → Members

unfoldable mutual
  unfolding same

  pub conforms : Schema → JsonValue → Bool
  conforms any_number (number_value n) = true
  conforms whole_number (number_value (whole n)) = true
  conforms text (string_value t) = true
  conforms (constant c) (string_value t) = same c t
  conforms (list_of s) (array_value values) = conforms_each s values
  conforms (object_of members) (object_value entries) = conforms_members members entries
  conforms object_or_null (object_value entries) = true
  conforms object_or_null null_value = true
  conforms _ _ = false

  pub conforms_each : Schema → JsonValues → Bool
  conforms_each s no_values = true
  conforms_each s (value_and value values) = conforms s value && conforms_each s values

  pub conforms_members : Members → JsonFields → Bool
  conforms_members no_members no_fields = true
  conforms_members (member_and name s members) (field_and field value entries) =
      (same name field && conforms s value) && conforms_members members entries
  conforms_members _ _ = false

abbrev pub version_and : Members → Schema
version_and members = object_of (member_and (bytes "jsonrpc") (constant (bytes "2.0")) members)

abbrev pub response_schema : Schema
response_schema =
    version_and
      (member_and (bytes "id") any_number (member_and (bytes "result") object_or_null no_members))

abbrev pub notification_schema : Bytes → Members → Schema
notification_schema method params = version_and (
    member_and (bytes "method") (constant method)
      (member_and (bytes "params") (object_of params) no_members))

abbrev pub position_schema : Schema
position_schema = object_of (
    member_and (bytes "line") whole_number (member_and (bytes "character") whole_number no_members))

abbrev pub range_schema : Schema
range_schema = object_of (
    member_and (bytes "start") position_schema
      (member_and (bytes "end") position_schema no_members))

abbrev pub diagnostic_schema : Schema
diagnostic_schema = object_of (
    member_and (bytes "severity") whole_number
      (member_and (bytes "message") text (member_and (bytes "range") range_schema no_members)))

abbrev pub publish_schema : Schema
publish_schema = notification_schema (bytes "textDocument/publishDiagnostics") (
    member_and (bytes "uri") text
      (member_and (bytes "diagnostics") (list_of diagnostic_schema) no_members))

abbrev pub shown : Members
shown = member_and (bytes "type") whole_number (member_and (bytes "message") text no_members)

-- A notification of the three that the server sends.
abbrev pub is_notification : JsonValue → Bool
is_notification value =
    conforms publish_schema value
    || (conforms (notification_schema (bytes "window/logMessage") shown) value
        || conforms (notification_schema (bytes "window/showMessage") shown) value)

abbrev pub is_server_message : JsonValue → Bool
is_server_message value = conforms response_schema value || is_notification value
