-- ===== src/LspLogger/Tests.antt =====
-- Runs of the logger.
use capnp_ls.Prelude.{some, Bytes, bytes, ◌∷◌, ◌++◌, ◌≡◌, ◌↔◌}
use capnp_ls.LspLogger.{info_level, log_level}
use capnp_ls.LspLogger.Levels.{log_level_iff}

log_level_iff_example :
    (log_level (some (bytes "lsp_server=info")) ≡ info_level)
    ↔ (bytes "lsp_server=info" ≡ bytes "lsp_server=info")
log_level_iff_example = log_level_iff (bytes "lsp_server=info") info_level (λ e. cc)

abbrev empty_object : Bytes
empty_object = bytes "Content-Length: 2" ++ (13 ∷ 10 ∷ 13 ∷ 10 ∷ bytes "{}")
