-- ===== src/StdinReader/Oversized.antt =====
-- A message that is longer than the buffer of StdinReader.
use capnp_ls.StdinReader.{StdinReader}
