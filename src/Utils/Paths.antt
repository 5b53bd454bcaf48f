-- ===== src/Utils/Paths.antt =====
-- Paths and URIs: `uriToPath` against the URIs that the server sends.
use capnp_ls.Prelude.{Bytes, ◌++◌, ◌≡◌, refl, false, starts_with, arith}
use capnp_ls.Utils.{uri_to_path, file_scheme}

-- The path of "file://" followed by a path is that path.
pub uri_to_path-scheme : (path : Bytes) → uri_to_path (file_scheme ++ path) ≡ path
unfolding uri_to_path
uri_to_path-scheme path = refl

-- Any other text is left as it is.
pub uri_to_path_other : (uri : Bytes) → starts_with file_scheme uri ≡ false → uri_to_path uri ≡ uri
unfolding uri_to_path
uri_to_path_other uri h = ground arith
