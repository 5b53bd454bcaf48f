-- ===== src/LspTypes.antt =====
-- lsp_types.h and lsp_types.cpp: the protocol's constants, the methods, positions, ranges and
-- diagnostics.
pub mod Methods
pub mod Ranges
mod Tests
use capnp_ls.Prelude.{
  ℕ, Bool, true, false, ◌&&◌, ◌==◌, Option, none, some, Bytes, bytes, same, ◌∷◌, [], if◌then◌else◌,
}

abbrev pub lsp_content_length_header : Bytes
lsp_content_length_header = bytes "Content-Length: "

abbrev pub lsp_content_length_header_size : ℕ
lsp_content_length_header_size = 16

-- "\r\n\r\n"
abbrev pub lsp_header_delimiter : Bytes
lsp_header_delimiter = 13 ∷ 10 ∷ 13 ∷ 10 ∷ []

abbrev pub lsp_header_delimiter_size : ℕ
lsp_header_delimiter_size = 4

abbrev pub lsp_content_length_radix : ℕ
lsp_content_length_radix = 10

abbrev pub lsp_json_rpc_version : Bytes
lsp_json_rpc_version = bytes "2.0"

abbrev pub lsp_method : Bytes
lsp_method = bytes "method"

abbrev pub lsp_params : Bytes
lsp_params = bytes "params"

abbrev pub lsp_id : Bytes
lsp_id = bytes "id"

abbrev pub lsp_jsonrpc : Bytes
lsp_jsonrpc = bytes "jsonrpc"

abbrev pub lsp_result : Bytes
lsp_result = bytes "result"

pub data LspMethod : Type 0 where
  initialize shutdown definition did_open did_change_watched_files did_save : LspMethod
  did_change initialized set_trace cancel_request formatting : LspMethod

-- `KJ_STRINGIFY(LspMethod)`, the table METHOD_NAMES
unfoldable pub method_name : LspMethod → Bytes
method_name initialize = bytes "initialize"
method_name shutdown = bytes "shutdown"
method_name definition = bytes "textDocument/definition"
method_name did_open = bytes "textDocument/didOpen"
method_name did_change_watched_files = bytes "workspace/didChangeWatchedFiles"
method_name did_save = bytes "textDocument/didSave"
method_name did_change = bytes "textDocument/didChange"
method_name initialized = bytes "initialized"
method_name set_trace = bytes "$/setTrace"
method_name cancel_request = bytes "$/cancelRequest"
method_name formatting = bytes "textDocument/formatting"

-- The chain of tests that LSP_FOR_EACH_METHOD(TRY_METHOD) expands to.
unfoldable pub try_parse_lsp_method : Bytes → Option LspMethod
unfolding same
try_parse_lsp_method name =
    if same name (bytes "initialize")
    then some initialize
    else if same name (bytes "shutdown")
    then some shutdown
    else if same name (bytes "textDocument/definition")
    then some definition
    else if same name (bytes "textDocument/didOpen")
    then some did_open
    else if same name (bytes "workspace/didChangeWatchedFiles")
    then some did_change_watched_files
    else if same name (bytes "textDocument/didSave")
    then some did_save
    else if same name (bytes "textDocument/didChange")
    then some did_change
    else if same name (bytes "initialized")
    then some initialized
    else if same name (bytes "$/setTrace")
    then some set_trace
    else if same name (bytes "$/cancelRequest")
    then some cancel_request
    else if same name (bytes "textDocument/formatting")
    then some formatting
    else none

-- uint32_t fields, kept below 2 ^ 32 by the code that makes them
pub record Position : Type 0 where
  pub line : ℕ
  pub character : ℕ

pub record Range : Type 0 where
  pub start : Position
  pub end : Position

pub record Location : Type 0 where
  pub uri : Bytes
  pub range : Range

-- `Position::operator==`
unfoldable pub position_eq : Position → Position → Bool
position_eq a b = (a.line == b.line) && (a.character == b.character)

-- `Range::operator==`
unfoldable pub range_eq : Range → Range → Bool
unfolding position_eq
range_eq a b = position_eq a.start b.start && position_eq a.end b.end

pub data DiagnosticSeverity : Type 0 where
  error warning information hint : DiagnosticSeverity

pub record Diagnostic : Type 0 where
  pub range : Range
  pub severity : DiagnosticSeverity
  pub message : Bytes
  pub source : Bytes
