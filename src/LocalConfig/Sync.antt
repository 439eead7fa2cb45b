-- ===== src/LocalConfig/Sync.antt =====
-- `save`, `load` and `sync`.
use mathlib.Core.Path.{subst}
use libcernvm.Prelude.{
  ◌≤◌, ◌<◌, ◌≡◌, refl, sym, ap, ◌∙◌, Bool, true, false, List, [], ◌∷◌, Option, none, some, arith,
  if◌then◌else◌, ltb,
}
use libcernvm.Prelude.Keys.{Bytes, bytes_key, bytes_beq_iff}
use libcernvm.StdMap
use libcernvm.StdMap.{Map, is_some, or_some}
use libcernvm.Parameters.{Entries, Store, put_on_map}
use libcernvm.Parameters.Names.{find-put_on_map}
use libcernvm.LocalConfig.File.{save_map, load_map}
use libcernvm.LocalConfig.File.RoundTrip.{save_map_total}
use libcernvm.LocalConfig.{
  ConfigFile, Files, write_map, read_map, mark_synced, save, load, has_key, erase_keys, put_ours,
  add_missing, merge, sync,
}

-- A save that works writes the file, and yet answers false and leaves the time of the last load and
-- the list of deleted keys as they were.
pub save_unmarked :
    (m : Entries) (w : Files)
    → w.writable ≡ true
    → (text : Bytes) × (save_map m ≡ some text)
      × (save m w ≡ (record w { disk = some (record { text = text; modified = w.now }) }, false))
unfolding save mark_synced write_map
save_unmarked m w h = let (text, e) = save_map_total m in (text, e, ground arith)

-- So does a load that works: it replaces the map and answers false.
pub load_unmarked :
    (s : Store Files) (f : ConfigFile) (m : Entries)
    → s.world.disk ≡ some f
    → load_map f.text ≡ some m
    → load s ≡ (record s { entries = m }, false)
unfolding load mark_synced read_map
load_unmarked s f m d e = ground arith

find-erase_keys :
    (ks : List Bytes) (m : Entries) (k : Bytes)
    → StdMap.find k (erase_keys ks m) ≡ (if has_key k ks then none else StdMap.find k m)
unfolding erase_keys has_key
find-erase_keys [] m k = refl
find-erase_keys (x ∷ ks) m k =
    ground (arith, find-erase_keys ks (StdMap.erase x m) k, StdMap.find-erase k x m)

find-put_ours :
    (ours m : Entries) (k : Bytes)
    → StdMap.Unique ours
    → StdMap.find k (put_ours ours m) ≡ or_some (StdMap.find k ours) (StdMap.find k m)
unfolding put_ours StdMap.find
find-put_ours [] m k u = refl
find-put_ours ((key, value) ∷ ours) m k u = ground (
  arith,
  find-put_ours ours (StdMap.insert key value (StdMap.erase key m)) k u.1,
  StdMap.find-insert k key value (StdMap.erase key m),
  StdMap.find-erase k key m,
  StdMap.find-erase key key m,
  bytes_beq_iff key k,
  bytes_beq_iff key key,
  u.0,
)

find-add_missing :
    (theirs m : Entries) (k : Bytes)
    → StdMap.find k (add_missing theirs m) ≡ or_some (StdMap.find k m) (StdMap.find k theirs)
unfolding add_missing StdMap.find
find-add_missing [] m k = ground arith
find-add_missing ((key, value) ∷ theirs) m k = ground (
  arith,
  find-add_missing theirs (if is_some (StdMap.find key m) then m else put_on_map key value m) k,
  find-put_on_map k key value m,
  bytes_beq_iff key k,
)

-- Our value, and otherwise the file's, unless the key was deleted here.
abbrev pub merged : Store Files → Entries → Bytes → Option Bytes
merged s file_map k =
    or_some (StdMap.find k s.entries)
      (if has_key k s.world.keys_deleted then none else StdMap.find k file_map)

-- The answer of a merge: the map has the merged entries, and the file is written anew with them.
pub record IsMerged (s : Store Files) (file_map : Entries) (q : Store Files × Bool) : Type 0 where
  pub answer : q.1 ≡ true
  pub ours : (k : Bytes) → StdMap.find k q.0.entries ≡ merged s file_map k
  pub forgotten : q.0.world.keys_deleted ≡ []
  pub written : Entries
  pub text : Bytes
  pub disk : q.0.world.disk ≡ some (record { text = text; modified = s.world.now })
  pub saved : save_map written ≡ some text
  pub theirs : (k : Bytes) → StdMap.find k written ≡ merged s file_map k

merge-IsMerged :
    (s : Store Files) (file_map : Entries)
    → s.world.writable ≡ true
    → StdMap.Unique s.entries
    → IsMerged s file_map (merge file_map s)
unfolding merge write_map
merge-IsMerged s file_map w u =
    let theirs = put_ours s.entries (erase_keys s.world.keys_deleted file_map) in
    let (text, t) = save_map_total theirs in
    let found = λ (k : Bytes).
      find-put_ours s.entries (erase_keys s.world.keys_deleted file_map) k u
      ∙ ap (or_some (StdMap.find k s.entries)) (find-erase_keys s.world.keys_deleted file_map k) in
    record {
      answer = refl;
      ours = λ k.
          find-add_missing theirs s.entries k
          ∙ ap (or_some (StdMap.find k s.entries)) (found k)
          ∙ again (StdMap.find k s.entries) _;
      forgotten = ground arith;
      written = theirs;
      text = text;
      disk = ground arith;
      saved = t;
      theirs = found;
    }
  where
    again : (a b : Option Bytes) → or_some a (or_some a b) ≡ or_some a b
    again none b = refl
    again (some x) b = refl

-- When both the map and the file have changed since the last load, `sync` leaves the map with our
-- entries and those of the file that are new here and not deleted here, writes a file of just these
-- entries, and forgets the deleted keys.
pub sync-IsMerged :
    (s : Store Files) (f : ConfigFile) (file_map : Entries)
    → s.world.disk ≡ some f
    → s.world.time_loaded < s.world.time_modified
    → s.world.time_loaded < f.modified
    → load_map f.text ≡ some file_map
    → s.world.writable ≡ true
    → StdMap.Unique s.entries
    → IsMerged s file_map (sync s)
sync-IsMerged s f file_map d changed newer e w u =
    subst (IsMerged s file_map) (sym conflict) (merge-IsMerged s file_map w u)
  where
    conflict : sync s ≡ merge file_map s
    conflict = unfold sync in ground arith

-- `sync` with a map that was not changed since the last load: a newer file replaces the map, an older
-- one leaves all as it is, and the file is not written.
pub sync_unchanged :
    (s : Store Files) (f : ConfigFile) (file_map : Entries)
    → s.world.disk ≡ some f
    → s.world.time_modified ≤ s.world.time_loaded
    → load_map f.text ≡ some file_map
    → ((sync s).0.entries ≡ (if ltb s.world.time_loaded f.modified then file_map else s.entries))
      × ((sync s).0.world ≡ s.world)
unfolding sync
sync_unchanged s f file_map d same e = ground (arith, load_unmarked s f file_map d e)
