-- ===== src/ContextIso/Reader.antt =====
-- What a reader of ISO 9660 makes of the images of src/contextiso.cpp.
use libcernvm.Prelude.{ℕ, zero, suc, ◌+◌, ◌*◌, Option, none, some, if◌then◌else◌, ◌==◌}
use libcernvm.Prelude.Keys.{Bytes, bytes_beq}
use libcernvm.Prelude.Binds.{◌>>=◌}
use libcernvm.ContextIso.{Disk, bytes_at}

-- A number of 32 bits, lowest byte first.
unfoldable pub number_at : Disk → ℕ → ℕ
number_at m place = m place + 256 * m (place + 1) + 65536 * m (place + 2) + 16777216 * m (place + 3)

-- The place of the record with a name in a directory: a record starts with its length, and a length of
-- 0 ends the directory.
unfoldable pub find_record : ℕ → Disk → ℕ → Bytes → Option ℕ
find_record zero m place name = none
find_record (suc fuel) m place name =
    let next = find_record fuel m (place + m place) name in
    if m place == 0
    then none
    else if bytes_beq (bytes_at m (place + 33) (m (place + 32))) name
    then some place
    else next

-- The sector where the root starts, of 2048 bytes each; a sector has room for 60 records.
unfoldable pub read_file : Disk → Bytes → Option Bytes
read_file m name = do
  place ← find_record 60 m (number_at m (32768 + 158) * 2048) name
  some (bytes_at m (number_at m (place + 2) * 2048) (number_at m (place + 10)))
