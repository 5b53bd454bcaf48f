-- ===== src/LspTypes/Tests.antt =====
-- The theorems on methods at one name.
use capnp_ls.Prelude.{bytes, ◌≡◌, ◌↔◌, some}
use capnp_ls.LspTypes.{did_save, method_name, try_parse_lsp_method}
use capnp_ls.LspTypes.Methods.{try_parse_lsp_method_iff}

try_parse_lsp_method_iff_example :
    (try_parse_lsp_method (bytes "textDocument/didSave") ≡ some did_save)
    ↔ (bytes "textDocument/didSave" ≡ method_name did_save)
try_parse_lsp_method_iff_example = try_parse_lsp_method_iff did_save (bytes "textDocument/didSave")
