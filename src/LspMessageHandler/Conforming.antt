-- ===== src/LspMessageHandler/Conforming.antt =====
-- The values that the handler and the logger send are messages of the protocol.
use capnp_ls.Prelude.{true, Bytes, List, [], ◌∷◌, ◌≡◌, refl, same, arith}
use capnp_ls.LspTypes.{Diagnostic}
use capnp_ls.LspLogger.{LogSeverity, fatal, error, warning, info, debug, log_notification}
use capnp_ls.LspMessageHandler.Json.{Double, JsonValue}
use capnp_ls.LspMessageHandler.Publish.{diagnostic_values, notification}
use capnp_ls.LspMessageHandler.Messages.{result_of, response_value}
use capnp_ls.LspMessageHandler.Schema.{
  conforms, conforms_each, conforms_members, object_or_null, diagnostic_schema, is_server_message,
  is_notification,
}

result_of-conforms : (value : JsonValue) → conforms object_or_null (result_of value) ≡ true
unfolding result_of conforms
result_of-conforms value = ground arith

pub response-is_server_message :
    (id : Double) (value : JsonValue) → is_server_message (response_value id value) ≡ true
unfolding conforms conforms_members same
response-is_server_message id value = ground (arith, result_of-conforms value)

values-conform :
    (ds : List Diagnostic) → conforms_each diagnostic_schema (diagnostic_values ds) ≡ true
unfolding conforms conforms_each conforms_members diagnostic_values same
values-conform [] = refl
values-conform (d ∷ ds) = values-conform ds

pub notification-is_server_message :
    (workspace_path file : Bytes) (ds : List Diagnostic)
    → is_server_message (notification workspace_path file ds) ≡ true
unfolding conforms conforms_members notification same
notification-is_server_message workspace_path file ds = ground (arith, values-conform ds)

pub log-is_server_message :
    (severity : LogSeverity) (text : Bytes)
    → is_server_message (log_notification severity text) ≡ true
unfolding conforms conforms_members log_notification same
log-is_server_message fatal text = refl
log-is_server_message error text = refl
log-is_server_message warning text = refl
log-is_server_message info text = refl
log-is_server_message debug text = refl

pub notification-is_notification :
    (workspace_path file : Bytes) (ds : List Diagnostic)
    → is_notification (notification workspace_path file ds) ≡ true
unfolding conforms conforms_members notification same
notification-is_notification workspace_path file ds = ground (arith, values-conform ds)

pub log-is_notification :
    (severity : LogSeverity) (text : Bytes)
    → is_notification (log_notification severity text) ≡ true
unfolding conforms conforms_members log_notification same
log-is_notification fatal text = refl
log-is_notification error text = refl
log-is_notification warning text = refl
log-is_notification info text = refl
log-is_notification debug text = refl
