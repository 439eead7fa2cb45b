-- ===== src/LocalConfig.antt =====
-- src/LocalConfig.cpp: the root of a parameter map that keeps its map in a configuration file.
pub mod Escape
pub mod File
pub mod Sync
pub mod Persist
mod Tests
use libcernvm.Prelude.{
  ℕ, ◌≡◌, Bool, true, false, not, ◌&&◌, ◌||◌, List, [], ◌∷◌, ◌++◌, Option, none, some,
  if◌then◌else◌, is_nil, leb, ltb,
}
use libcernvm.Prelude.Keys.{Bytes, bytes_key, ◌==◌}
use libcernvm.StdMap
use libcernvm.StdMap.{Map, is_some}
use libcernvm.LocalConfig.File.{save_map, load_map}
use libcernvm.Parameters
use libcernvm.Parameters.{Entries, Group, Store, put_on_map}

pub record ConfigFile : Type 0 where
  pub text : Bytes
  pub modified : ℕ

-- What a LocalConfig has beside the map: its file, if there is one; whether the file can be opened
-- for writing; what getTimeInMs answers; and its own fields.
pub record Files : Type 0 where
  pub disk : Option ConfigFile
  pub writable : Bool
  pub now : ℕ
  pub time_loaded : ℕ
  pub time_modified : ℕ
  pub keys_deleted : List Bytes

-- saveMap on the file of the configuration.
unfoldable pub write_map : Entries → Files → Files × Bool
write_map m w = elim (save_map m) [
  | none ↦ (w, false)
  | some text ↦
      if w.writable
      then (record w { disk = some (record { text = text; modified = w.now }) }, true)
      else (w, false)
]

-- loadMap on the file of the configuration: the map is left alone when the file does not open.
unfoldable pub read_map : Entries → Files → Entries × Bool
read_map m w = elim w.disk [
  | none ↦ (m, false)
  | some f ↦ elim (load_map f.text) [ none ↦ (m, false) | some m' ↦ (m', true) ]
]

-- The end of `save` and of `load`, for the answer that it tests.
unfoldable pub mark_synced : Bool → Files → Files
mark_synced ans w = if ans then record w { time_loaded = w.now; keys_deleted = [] } else w

-- The `ans` that `save` tests and returns is the outer one; the answer of saveMap goes to another
-- variable of the same name, in the block of the lock.
unfoldable pub save : Entries → Files → Files × Bool
save m w = let ans = false in (mark_synced ans (write_map m w).0, ans)

-- `load` has the same two variables.
unfoldable pub load : Store Files → Store Files × Bool
load s =
    let ans = false in
    (record { entries = (read_map s.entries s.world).0; world = mark_synced ans s.world }, ans)

-- commitChanges, the hook that ParameterMap calls.
unfoldable pub flush_config : Entries → Files → Files
flush_config m w = (save m w).0

unfoldable pub has_key : Bytes → List Bytes → Bool
has_key k [] = false
has_key k (x ∷ xs) = x == k || has_key k xs

unfoldable pub drop_key : Bytes → List Bytes → List Bytes
drop_key k [] = []
drop_key k (x ∷ xs) = if x == k then xs else x ∷ drop_key k xs

-- Every operation that changes the map notes the time first.
unfoldable pub touch : Store Files → Store Files
touch s = record s { world = record (s.world) { time_modified = s.world.now } }

unfoldable pub config_set : Group → Bytes → Bytes → Store Files → Store Files × Group
config_set g name value s =
    let (s', g') = Parameters.set flush_config g name value (touch s) in
    (
      record s' {
        world = record (s'.world) {
          keys_deleted = drop_key (g.prefix ++ name) s'.world.keys_deleted;
        };
      },
      g',
    )

unfoldable pub config_erase : Group → Bytes → Store Files → Store Files
config_erase g name s =
    let s' = Parameters.erase g name (touch s) in
    let key = g.prefix ++ name in
    if has_key key s'.world.keys_deleted then s' else record s' {
      world = record (s'.world) { keys_deleted = s'.world.keys_deleted ++ key ∷ [] };
    }

unfoldable pub remove_file : Store Files → Store Files
remove_file s = record s { world = record (s.world) { disk = none } }

-- `clear`; the file goes with the names when the object is a root with no prefix.
unfoldable pub config_clear : Group → Store Files → Store Files
config_clear g s =
    let s' = Parameters.clear g (touch s) in
    if is_nil g.prefix && leb g.depth 0 then remove_file s' else s'

unfoldable pub config_clear_all : Group → Store Files → Store Files
config_clear_all g s =
    let s' = Parameters.clear_all (touch s) in if leb g.depth 0 then remove_file s' else s'

-- The loops of `sync` when both sides have changed.
unfoldable pub erase_keys : List Bytes → Entries → Entries
erase_keys [] m = m
erase_keys (k ∷ ks) m = erase_keys ks (StdMap.erase k m)

unfoldable pub put_ours : Entries → Entries → Entries
put_ours [] m = m
put_ours ((key, value) ∷ ours) m = put_ours ours (StdMap.insert key value (StdMap.erase key m))

unfoldable pub add_missing : Entries → Entries → Entries
add_missing [] m = m
add_missing ((key, value) ∷ theirs) m =
    add_missing theirs (if is_some (StdMap.find key m) then m else put_on_map key value m)

unfoldable pub merge : Entries → Store Files → Store Files × Bool
merge file_map s =
    let theirs = put_ours s.entries (erase_keys s.world.keys_deleted file_map) in
    let w = record (s.world) { keys_deleted = [] } in
    (record { entries = add_missing theirs s.entries; world = (write_map theirs w).0 }, true)

unfoldable pub sync : Store Files → Store Files × Bool
sync s = elim s.world.disk [
  | none ↦ (let (w, ans) = save s.entries s.world in (record s { world = w }, ans))
  | some f ↦
      if leb s.world.time_modified s.world.time_loaded
      then (if ltb s.world.time_loaded f.modified then load s else (s, true))
      else if leb f.modified s.world.time_loaded
      then (let (w, ans) = save s.entries s.world in (record s { world = w }, ans))
      else elim (load_map f.text) [ none ↦ (s, false) | some file_map ↦ merge file_map s ]
]
