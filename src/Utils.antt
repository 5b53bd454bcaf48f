-- ===== src/Utils.antt =====
-- utils.cpp: `uriToPath`.
pub mod Paths
use capnp_ls.Prelude.{Bytes, bytes, drop, starts_with, not, if◌then◌else◌}

abbrev pub file_scheme : Bytes
file_scheme = bytes "file://"

unfoldable pub uri_to_path : Bytes → Bytes
unfolding starts_with
uri_to_path uri = if not (starts_with file_scheme uri) then uri else drop 7 uri
