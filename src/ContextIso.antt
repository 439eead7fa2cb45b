-- ===== src/ContextIso.antt =====
-- build_simple_cdrom of src/contextiso.cpp: an image of a disk with one file.
pub mod Tables
pub mod Reader
mod Overlays
mod Layout
mod Fields
pub mod Dates
pub mod Contents
pub mod Names
mod Tests
use libcernvm.Prelude.{
  ℕ, zero, suc, ◌+◌, ◌-◌, ◌*◌, ◌/◌, ◌%◌, ◌≡◌, Bool, true, false, ◌&&◌, [], ◌∷◌, ◌++◌, Option, none,
  some, if◌then◌else◌, leb, ltb, ◌==◌, length, take, replicate,
}
use libcernvm.Prelude.Keys.{Bytes}
use libcernvm.Utilities.Numbers.{decimal}
use libcernvm.Prelude.Binds.{◌>>=◌}
use libcernvm.ContextIso.Tables.{
  primary_descriptor, at_8800, at_9800, at_a800, context_sh_struct, libcontextiso_app,
}

-- The bytes of a block by their places.
abbrev pub Disk : Type 0
Disk = ℕ → ℕ

-- memcpy to a place of a block
unfoldable pub overlay : ℕ → Bytes → Disk → Disk
overlay place [] m i = m i
overlay place (c ∷ s) m i = if i == place then c else overlay (suc place) s m i

-- memcpy into a part of a block that has room for so many bytes
unfoldable pub copy_into : ℕ → ℕ → Bytes → Disk → Option Disk
copy_into room place s m = if leb (length s) room then some (overlay place s m) else none

-- The bytes of a block from a place on.
unfoldable pub bytes_at : Disk → ℕ → ℕ → Bytes
bytes_at m place zero = []
bytes_at m place (suc n) = m place ∷ bytes_at m (suc place) n

-- CONTEXTISO_CDROM_SIZE and CONTENTS_OFFSET
abbrev pub cdrom_size : ℕ
cdrom_size = 358400

abbrev pub contents_offset : ℕ
contents_offset = 49152

unfoldable pub isosetl : ℕ → Bytes
isosetl x =
    x % 256
    ∷ (x / 256) % 256
    ∷ (x / 65536) % 256
    ∷ (x / 16777216) % 256
    ∷ (x / 16777216) % 256
    ∷ (x / 65536) % 256
    ∷ (x / 256) % 256
    ∷ x % 256
    ∷ []

-- What gmtime gives, with the year that sprintf prints, an unsigned int.
pub record Tm : Type 0 where
  pub year : ℕ
  pub mon : ℕ
  pub mday : ℕ
  pub hour : ℕ
  pub min : ℕ
  pub sec : ℕ

-- What %0wu prints of a number of 32 bits: its digits, and zeros in front of them up to the width
unfoldable pub padded : ℕ → ℕ → Bytes
padded w n = let digits = decimal 10 n in replicate (w - length digits) 48 ++ digits

unfoldable pub date_now : Tm → Bytes
date_now now =
    padded 4 now.year
    ++ (padded 2 now.mon
        ++ (padded 2 now.mday
            ++ (padded 2 now.hour
                ++ (padded 2 now.min ++ (padded 2 now.sec ++ (48 ∷ 48 ∷ 48 ∷ []))))))

-- The text and its NUL stay within the 18 bytes of dateNow.
unfoldable pub date_fits : Tm → Bool
date_fits now = ltb (length (date_now now)) 18

-- The primary record before its volume is named; memcpy takes 17 bytes of dateNow.
unfoldable pub dated : Tm → Disk
dated now =
    let blank : Disk = λ i. 0 in
    let spaces = overlay 190 (replicate 1205 32) blank in
    let versions = overlay 882 (0 ∷ []) (overlay 881 (1 ∷ []) spaces) in
    let defaults = overlay 0 primary_descriptor versions in
    let date = take 17 (date_now now) in
    let dates = overlay 864 date (overlay 830 date (overlay 813 date defaults)) in
    overlay 574 libcontextiso_app (overlay 847 (replicate 17 48) dates)

-- The size of the data, cut to what the disk holds
unfoldable pub data_size : ℕ → ℕ
data_size size =
    if ltb (cdrom_size - contents_offset) size then cdrom_size - contents_offset else size

-- descPrimary
unfoldable pub primary : Tm → Bytes → ℕ → Option Disk
primary now volume_id size = do
  dates ← if date_fits now then some (dated now) else none
  named ← copy_into 32 40 (take 31 volume_id) (overlay 40 (replicate 31 32) dates)
  some (overlay 80 (isosetl (1 + (data_size size - 1) / 2048)) named)

-- toupper, and a low line for a blank
unfoldable pub name_byte : ℕ → ℕ
name_byte c = if leb 97 c && leb c 122 then c - 32 else if c == 32 then 95 else c

-- descFile.name[i] = c, where the name has 12 bytes and starts at the 33rd
unfoldable pub store_name : ℕ → ℕ → Disk → Option Disk
store_name i c m = if ltb i 12 then some (overlay (33 + i) (c ∷ []) m) else none

-- The file revision
unfoldable pub end_name : ℕ → Disk → Option Disk
end_name i m = do m' ← store_name i 59 m; store_name (i + 1) 49 m'

-- The loop over the file name
unfoldable pub put_name : ℕ → Bytes → Disk → Option Disk
put_name i [] m = end_name i m
put_name i (c ∷ s) m =
    let rest : Option Disk = do m' ← store_name i (name_byte c) m; put_name (suc i) s m'
    in if leb 10 i then end_name i m else rest

-- descFile
unfoldable pub file_record : Bytes → ℕ → Option Disk
file_record filename size =
    let defaults : Disk = λ i. overlay 0 context_sh_struct (λ j. 0) (68 + i) in
    put_name 0 filename (overlay 10 (isosetl (data_size size)) defaults)

-- memcpy of so many bytes of the buffer to the contents
unfoldable pub put_contents : ℕ → Bytes → Disk → Option Disk
put_contents size buffer m =
    if leb size (length buffer)
    then copy_into (cdrom_size - contents_offset) contents_offset (take size buffer) m
    else none

-- The image before its contents
unfoldable pub descriptors : Disk → Disk
descriptors desc_primary =
    let m = overlay 32768 (bytes_at desc_primary 0 2048) (λ i. 0) in
    overlay 43008 at_a800 (overlay 38912 at_9800 (overlay 34816 at_8800 m))

unfoldable pub headers : Disk → Disk → Disk
headers desc_primary desc_file =
    overlay (47104 + 68) (bytes_at desc_file 0 45)
      (overlay 47104 context_sh_struct (descriptors desc_primary))

unfoldable pub build_simple_cdrom : Tm → Bytes → Bytes → Bytes → ℕ → Option Disk
build_simple_cdrom now volume_id filename buffer size = do
  desc_primary ← primary now volume_id size
  desc_file ← file_record filename size
  put_contents (data_size size) buffer (headers desc_primary desc_file)

-- The name of the file of the program's disks
abbrev pub context_sh : Bytes
context_sh = 67 ∷ 79 ∷ 78 ∷ 84 ∷ 69 ∷ 88 ∷ 84 ∷ 46 ∷ 83 ∷ 72 ∷ []

-- On the bytes of a text before its NUL
unfoldable pub build_context_cdrom : Tm → Bytes → Option Disk
build_context_cdrom now user_data =
    build_simple_cdrom now (67 ∷ 79 ∷ 78 ∷ 70 ∷ 73 ∷ 71 ∷ 68 ∷ 73 ∷ 83 ∷ 75 ∷ []) context_sh
      user_data (length user_data)
