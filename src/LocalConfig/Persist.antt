-- ===== src/LocalConfig/Persist.antt =====
-- A value that is set reaches the file.
use libcernvm.Prelude.Keys.{bytes_key}
use libcernvm.StdMap
use libcernvm.StdMap.{Map}
use libcernvm.Parameters
