-- ===== src/LspTypes/Methods.antt =====
-- Names of methods: printing and parsing are inverse to each other.
use capnp_ls.Prelude.{Bytes, bytes, ◌≡◌, ◌↔◌, refl, some, same_iff, arith}
use capnp_ls.LspTypes.{LspMethod, initialize, method_name, try_parse_lsp_method}

pub try_parse_lsp_method-method_name :
    (m : LspMethod) → try_parse_lsp_method (method_name m) ≡ some m
unfolding try_parse_lsp_method method_name
try_parse_lsp_method-method_name initialize = refl
try_parse_lsp_method-method_name _ = refl

method_name_of :
    (m : LspMethod) (name : Bytes) → try_parse_lsp_method name ≡ some m → name ≡ method_name m
unfolding method_name try_parse_lsp_method
method_name_of m name h = ground (
  arith,
  same_iff name (bytes "initialize"),
  same_iff name (bytes "shutdown"),
  same_iff name (bytes "textDocument/definition"),
  same_iff name (bytes "textDocument/didOpen"),
  same_iff name (bytes "workspace/didChangeWatchedFiles"),
  same_iff name (bytes "textDocument/didSave"),
  same_iff name (bytes "textDocument/didChange"),
  same_iff name (bytes "initialized"),
  same_iff name (bytes "$/setTrace"),
  same_iff name (bytes "$/cancelRequest"),
  same_iff name (bytes "textDocument/formatting"),
)

-- A text parses to a method exactly when it is that method's name.
pub try_parse_lsp_method_iff :
    (m : LspMethod) (name : Bytes) → (try_parse_lsp_method name ≡ some m) ↔ (name ≡ method_name m)
try_parse_lsp_method_iff m name =
    (method_name_of m name, λ e. rw e (try_parse_lsp_method-method_name m))
