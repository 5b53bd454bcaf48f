-- ===== src/LspLogger.antt =====
-- logger.h: the log level of the environment, and the notification for a log message.
pub mod Levels
mod Tests
use capnp_ls.Prelude.{
  ℕ, Option, none, some, Bytes, bytes, ◌++◌, drop, same, starts_with, if◌then◌else◌, Result, ok,
  thrown,
}
use capnp_ls.LspMessageHandler.Json.{
  whole, JsonValue, number_value, string_value, object_value, no_fields, field_and,
}
use capnp_ls.LspMessageHandler.Publish.{Output, message_of}

pub data LogLevel : Type 0 where
  error_level warning_level info_level : LogLevel

-- kj::LogSeverity
pub data LogSeverity : Type 0 where
  info warning error fatal debug : LogSeverity

unfoldable pub named_level : Bytes → LogLevel
unfolding same
named_level name =
    if same name (bytes "error")
    then error_level
    else if same name (bytes "warning")
    then warning_level
    else if same name (bytes "info")
    then info_level
    else warning_level

-- The level that the constructor reads from CPP_LOG.
unfoldable pub log_level : Option Bytes → LogLevel
unfolding named_level starts_with
log_level none = warning_level
log_level (some value) =
    if starts_with (bytes "lsp_server=") value then named_level (drop 11 value) else warning_level

-- The severity that it sets.
unfoldable pub kj_log_level : LogLevel → LogSeverity
kj_log_level error_level = error
kj_log_level warning_level = warning
kj_log_level info_level = info

unfoldable pub message_type : LogSeverity → ℕ
message_type fatal = 1
message_type error = 1
message_type warning = 2
message_type info = 3
message_type debug = 4

unfoldable pub log_method : LogSeverity → Bytes
log_method fatal = bytes "window/showMessage"
log_method _ = bytes "window/logMessage"

unfoldable pub log_notification : LogSeverity → Bytes → JsonValue
unfolding message_type log_method
log_notification severity text = object_value (
    field_and (bytes "jsonrpc") (string_value (bytes "2.0")) (
      field_and (bytes "method") (string_value (log_method severity)) (
        field_and (bytes "params")
          (object_value (
            field_and (bytes "type") (number_value (whole (message_type severity)))
              (field_and (bytes "message") (string_value text) no_fields)))
          no_fields)))

module _ (output : Output) where
  -- `sendLspLogMessage`: what it writes.
  unfoldable pub send_lsp_log_message : LogSeverity → Bytes → Result Bytes
  send_lsp_log_message severity text = elim (output.encode (log_notification severity text)) [
    | thrown ↦ thrown
    | ok body ↦ ok (message_of output body)
  ]

  -- `logMessage`
  unfoldable pub log_message : LogSeverity → Bytes → ℕ → Bytes → Result Bytes
  unfolding send_lsp_log_message log_notification message_of
  log_message severity file line text =
      send_lsp_log_message severity
        (file ++ (bytes ":" ++ (output.decimal line ++ (bytes ": " ++ text))))
