-- ===== src/LocalConfig/Tests.antt =====
-- Configuration files at work.
use libcernvm.Prelude.Texts.{codes}
use libcernvm.Prelude.{ℕ, ◌≡◌, refl, true, [], ◌∷◌, some, arith}
use libcernvm.Prelude.Keys.{Bytes, bytes_key, bytes_beq}
use libcernvm.Prelude.Member.{mem}
use libcernvm.StdMap
use libcernvm.Parameters.{Entries, Store}
use libcernvm.LocalConfig.Escape.{unescape_value, unescape_loop}
use libcernvm.LocalConfig.File.{
  break_at, getline, read_lines, lines_of, save_map, load_line, load_from, load_map,
}
use libcernvm.LocalConfig.File.RoundTrip.{with_value, load_map-save_map}
use libcernvm.LocalConfig.{ConfigFile, Files, sync}
use libcernvm.LocalConfig.Sync.{IsMerged, sync-IsMerged}

-- A value with a newline and a backslash.
abbrev two_lines : Bytes
two_lines = codes "a\n\\"

abbrev ours : Entries
ours = (b'k' ∷ [], two_lines) ∷ (b'l' ∷ [], []) ∷ []

load_map-save_map_example :
    (text : Bytes) × (m' : Entries) × (save_map ours ≡ some text)
    × (load_map text ≡ some m')
    × ((k : Bytes) → StdMap.find k m' ≡ with_value (StdMap.find k ours))
load_map-save_map_example =
    load_map-save_map ours (unfold StdMap.find bytes_beq in (refl, (refl, tt)))
      (unfold mem in ((refl, refl), ((refl, refl), tt)))

-- A file that was written at 20 and holds `m=1`.
abbrev file : ConfigFile
file = record { text = codes "m=1\n"; modified = 20 }

abbrev in_file : Entries
in_file = (b'm' ∷ [], b'1' ∷ []) ∷ []

load_file : load_map file.text ≡ some in_file
unfolding load_map lines_of read_lines getline break_at load_from load_line unescape_value
    unescape_loop StdMap.insert StdMap.find StdMap.place
load_file = refl

abbrev files : ℕ → Files
files modified = record {
  disk = some file;
  writable = true;
  now = 30;
  time_loaded = 10;
  time_modified = modified;
  keys_deleted = (b'm' ∷ []) ∷ [];
}

abbrev store : ℕ → Store Files
store modified = record { entries = ours; world = files modified }

sync-IsMerged_example : IsMerged (store 15) in_file (sync (store 15))
sync-IsMerged_example =
    sync-IsMerged (store 15) file in_file refl (omega arith) (omega arith) load_file refl
      (unfold StdMap.find bytes_beq in (refl, (refl, tt)))
