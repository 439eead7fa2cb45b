-- ===== src/Parameters.antt =====
-- src/ParameterMap.cpp: named parameters in groups. All groups under one root share the root's map;
-- a group reads and writes the names that begin with its prefix. The map's mutex makes each of the
-- operations below one step.
pub mod Names
pub mod Groups
pub mod Batch
pub mod Import
pub mod Numbers
pub mod Json
mod Tests
use libcernvm.Prelude.{
  ℕ, zero, suc, ◌≡◌, Bool, true, false, not, ◌&&◌, ◌||◌, List, [], ◌∷◌, ◌++◌, map, Option, none,
  some, if◌then◌else◌, is_nil, leb, ◌==◌ as byte_eq,
}
use libcernvm.Prelude.Keys.{Bytes, bytes_key, ◌==◌}
use libcernvm.Prelude.Member.{mem}
use libcernvm.StdMap
use libcernvm.StdMap.{Map, is_some}

abbrev pub Entries : Type 0
Entries = Map Bytes Bytes

-- PMAP_GROUP_SEPARATOR
abbrev pub separator : ℕ
separator = b'/'

-- SAFE_KEY_CHARS
unfoldable pub is_safe : ℕ → Bool
is_safe c =
    (leb b'0' c && leb c b'9')
    || (leb b'a' c && leb c b'z')
    || (leb b'A' c && leb c b'Z')
    || byte_eq c b'_'
    || byte_eq c b'-'

-- The loop of `get` in strict mode.
unfoldable pub safe_name : Bytes → Bytes
safe_name [] = []
safe_name (c ∷ name) = (if is_safe c then c else b'_') ∷ safe_name name

-- A ParameterMap object without the map: `depth` is the number of parents up to the root.
pub record Group : Type 0 where
  pub prefix : Bytes
  pub locked : Bool
  pub changed : Bool
  pub depth : ℕ

-- The shared map, and what the root's commitChanges writes to.
pub record Store (W : Type 0) : Type 0 where
  pub entries : Entries
  pub world : W

unfoldable pub instance_root : Group
instance_root = record { prefix = []; locked = false; changed = false; depth = 0 }

unfoldable pub subgroup : Group → Bytes → Group
subgroup g name = record {
  prefix = g.prefix ++ (name ++ separator ∷ []);
  locked = false;
  changed = false;
  depth = suc g.depth;
}

-- `putOnMap`
unfoldable pub put_on_map : Bytes → Bytes → Entries → Entries
put_on_map key value m =
    let m' = if is_some (StdMap.find key m) then StdMap.erase key m else m in
    StdMap.insert key value m'

abbrev pub or_default : Option Bytes → Bytes → Bytes
or_default none d = d
or_default (some v) d = v

unfoldable pub get : Group → Entries → Bytes → Bytes → Bool → Bytes
get g m kname default strict =
    or_default (StdMap.find (g.prefix ++ (if strict then safe_name kname else kname)) m) default

unfoldable pub contains : Group → Entries → Bytes → Bool → Bool
contains g m name use_blank =
    let key = g.prefix ++ name in
    let ans = is_some (StdMap.find key m) in
    if ans && use_blank then not (is_nil (or_default (StdMap.find key m) [])) else ans

-- The rest of a key behind the prefix, if it has the prefix.
unfoldable pub strip_prefix : Bytes → Bytes → Option Bytes
strip_prefix [] key = some key
strip_prefix (p ∷ prefix) [] = none
strip_prefix (p ∷ prefix) (c ∷ key) = if byte_eq p c then strip_prefix prefix key else none

-- A key of the group itself, and of none below it.
unfoldable pub own_name : Bytes → Bytes → Option Bytes
own_name prefix key = elim (strip_prefix prefix key) [
  | none ↦ none
  | some name ↦ if mem separator name then none else some name
]

unfoldable pub enum_keys : Bytes → Entries → List Bytes
enum_keys prefix [] = []
enum_keys prefix ((key, _) ∷ m) =
    let rest = enum_keys prefix m in
    elim (own_name prefix key) [ none ↦ rest | some name ↦ name ∷ rest ]

unfoldable pub erase_names : Bytes → List Bytes → Entries → Entries
erase_names prefix [] m = m
erase_names prefix (k ∷ ks) m = erase_names prefix ks (StdMap.erase (prefix ++ k) m)

unfoldable pub bool_of_text : Bool → Bytes → Bool
bool_of_text default [] = default
bool_of_text default (c ∷ v) = byte_eq c b'y' || byte_eq c b't' || byte_eq c b'1'

unfoldable pub get_bool : Group → Entries → Bytes → Bool → Bool
get_bool g m name default = bool_of_text default (get g m name [] false)

-- toMap, on the caller's map; std::map::insert keeps what is there.
unfoldable pub copy_names : Bytes → Entries → List Bytes → Entries → Entries
copy_names prefix m [] out = out
copy_names prefix m (k ∷ ks) out =
    copy_names prefix m ks (StdMap.insert k (or_default (StdMap.find (prefix ++ k) m) []) out)

unfoldable pub to_map : Group → Entries → Bool → Entries → Entries
to_map g m clear_before out =
    copy_names g.prefix m (enum_keys g.prefix m) (if clear_before then [] else out)

-- The loop of fromMap.
unfoldable pub put_entries : Bytes → Bool → Entries → Entries → Entries
put_entries prefix replace [] m = m
put_entries prefix replace ((name, value) ∷ source) m =
    let key = prefix ++ name in
    put_entries prefix replace source
      (if replace || not (is_some (StdMap.find key m)) then put_on_map key value m else m)

-- The loop of fromParameters: the target and the source, in which operator[] makes missing entries.
unfoldable pub import_names : Bytes → Bool → List Bytes → Entries → Entries → Entries × Entries
import_names prefix replace [] m source = (m, source)
import_names prefix replace (name ∷ names) m source =
    let key = prefix ++ name in
    let wanted = replace || not (is_some (StdMap.find key m)) in
    let value = or_default (StdMap.find name source) [] in
    import_names prefix replace names (if wanted then put_on_map key value m else m)
      (if wanted then StdMap.insert name [] source else source)

unfoldable pub lock : Group → Group
lock g = record g { locked = true; changed = false }

module _ {W : Type 0} where
  unfoldable pub erase : Group → Bytes → Store W → Store W
  erase g name s = record s { entries = StdMap.erase (g.prefix ++ name) s.entries }

  unfoldable pub set_default : Group → Bytes → Bytes → Store W → Store W
  set_default g kname value s = record s {
    entries = StdMap.insert (g.prefix ++ kname) value s.entries;
  }

  unfoldable pub clear : Group → Store W → Store W
  clear g s = record s { entries = erase_names g.prefix (enum_keys g.prefix s.entries) s.entries }

  unfoldable pub clear_all : Store W → Store W
  clear_all s = record s { entries = [] }

-- `flush` is the commitChanges of the root object: nothing for a ParameterMap, and a save of the map
-- for a LocalConfig.
module _ {W : Type 0} (flush : Entries → W → W) where
  -- commitChanges forwards to the parent.
  unfoldable pub commit_changes : ℕ → Store W → Store W
  commit_changes zero s = record s { world = flush s.entries s.world }
  commit_changes (suc depth) s = commit_changes depth s

  -- How every operation that writes ends.
  unfoldable pub written : Group → Store W → Store W × Group
  written g s =
      if not g.locked then (commit_changes g.depth s, g) else (s, record g { changed = true })

  unfoldable pub set : Group → Bytes → Bytes → Store W → Store W × Group
  set g kname value s =
      written g (record s { entries = put_on_map (g.prefix ++ kname) value s.entries })

  unfoldable pub set_bool : Group → Bytes → Bool → Store W → Store W × Group
  set_bool g name value s = set g name (if value then b'y' ∷ [] else b'n' ∷ []) s

  unfoldable pub unlock : Group → Store W → Store W × Group
  unlock g s =
      let g' = record g { locked = false } in
      (if g.changed then commit_changes g.depth s else s, g')

  unfoldable pub from_map : Group → Option Entries → Bool → Bool → Store W → Store W × Group
  from_map g source clear_before replace s =
      let s' = if clear_before then clear g s else s in
      elim source [
        | none ↦ (s', g)
        | some m ↦ written g (record s' { entries = put_entries g.prefix replace m s'.entries })
      ]

  -- From a group of another map; the third part of the result is the other map.
  unfoldable pub from_parameters :
      Group → Group → Entries → Bool → Bool → Store W → Store W × Group × Entries
  from_parameters g other source clear_before replace s =
      let s' = if clear_before then clear g s else s in
      let (m, source') =
        import_names g.prefix replace (enum_keys other.prefix source) s'.entries source in
      let (s'', g') = written g (record s' { entries = m }) in (s'', g', source')
