-- ===== src/LocalConfig/File/RoundTrip.antt =====
-- What loadMap reads from a file that saveMap wrote.
use libcernvm.Prelude.{
  ℕ, zero, suc, ◌≤◌, ◌≡◌, refl, sym, ap, ◌∙◌, false, List, [], ◌∷◌, ◌++◌, Option, none, some, arith,
  if◌then◌else◌, length, append_assoc, length-append, is_nil,
}
use libcernvm.Prelude.Keys.{Bytes, bytes_key, bytes_beq_iff}
use libcernvm.Prelude.Member.{mem, mem-append}
use libcernvm.StdMap
use libcernvm.StdMap.{Map, or_some}
use libcernvm.LocalConfig.Escape.Laws.{
  escaped, escape_value-escaped, unescape_value-unescaped, unescaped-escaped, mem-escaped,
  is_nil-escaped,
}
use libcernvm.LocalConfig.File.{
  Entries, getline, read_lines, lines_of, save_map, load_line, load_from, load_map,
}
use libcernvm.LocalConfig.File.Lines.{break_at_end, getline-append, read_lines-append}

-- A key of a configuration file holds neither the separator nor a newline.
abbrev pub IsKey : Bytes → Type 0
IsKey key = (mem b'=' key ≡ false) × (mem b'\n' key ≡ false)

abbrev pub HasKeys : Entries → Type 0
HasKeys [] = Unit
HasKeys ((key, _) ∷ m) = IsKey key × HasKeys m

line_of : Bytes → Bytes → Bytes
line_of key value = key ++ (b'=' ∷ escaped value)

map_lines : Entries → List Bytes
map_lines [] = []
map_lines ((key, value) ∷ m) = line_of key value ∷ map_lines m

file_text : List Bytes → Bytes
file_text [] = []
file_text (line ∷ lines) = line ++ (b'\n' ∷ file_text lines)

save_map-file_text : (m : Entries) → save_map m ≡ some (file_text (map_lines m))
unfolding save_map map_lines file_text line_of
save_map-file_text [] = refl
save_map-file_text ((key, value) ∷ m) =
    rw (escape_value-escaped value, save_map)
      (rw (save_map-file_text m) (ap some (sym (append_assoc key (b'=' ∷ escaped value) _))))

-- saveMap's loops always end.
pub save_map_total : (m : Entries) → (text : Bytes) × (save_map m ≡ some text)
save_map_total m = (file_text (map_lines m), save_map-file_text m)

mem-line_of : (key value : Bytes) → mem b'\n' key ≡ false → mem b'\n' (line_of key value) ≡ false
unfolding line_of mem
mem-line_of key value h =
    ground (arith, mem-append b'\n' key (b'=' ∷ escaped value), mem-escaped value)

read_lines-map_lines :
    (m : Entries) (fuel : ℕ)
    → HasKeys m
    → length (file_text (map_lines m)) ≤ fuel
    → read_lines fuel (file_text (map_lines m)) ≡ map_lines m
unfolding map_lines file_text
read_lines-map_lines [] zero a h = unfold read_lines in refl
read_lines-map_lines [] (suc fuel) a h = unfold read_lines getline in refl
read_lines-map_lines ((key, value) ∷ m) zero a h =
    absurd (omega (arith, length-append (line_of key value) (b'\n' ∷ file_text (map_lines m))))
read_lines-map_lines ((key, value) ∷ m) (suc fuel) a h =
    read_lines-append fuel (line_of key value) _ (mem-line_of key value a.0.1)
    ∙ ap (◌∷◌ (line_of key value)) (
        read_lines-map_lines m fuel a.1
          (omega (arith, length-append (line_of key value) (b'\n' ∷ file_text (map_lines m)))))

-- What loadMap makes of the entries: each that has a value, unless its key is there already.
import_map : Entries → Entries → Entries
import_map [] acc = acc
import_map ((key, value) ∷ m) acc =
    import_map m (if is_nil value then acc else StdMap.insert key value acc)

getline_value :
    (value : Bytes)
    → getline b'\n' (escaped value) ≡ (if is_nil value then none else some (escaped value, []))
unfolding getline
getline_value value = shape (escaped value) (is_nil-escaped value) (mem-escaped value)
  where
    shape :
        (e : Bytes)
        → is_nil e ≡ is_nil value
        → mem b'\n' e ≡ false
        → getline b'\n' e ≡ (if is_nil value then none else some (e, []))
    shape [] n h = rw (← n) refl
    shape (c ∷ e) n h = rw (← n) (ap some (break_at_end b'\n' (c ∷ e) h))

load_line-line_of :
    (m : Entries) (key value : Bytes)
    → mem b'=' key ≡ false
    → load_line m (line_of key value) ≡ some (if is_nil value then m else StdMap.insert key value m)
unfolding load_line line_of
load_line-line_of m key value h = ground (
  arith,
  getline-append b'=' key (escaped value) h,
  getline_value value,
  unescape_value-unescaped (escaped value),
  unescaped-escaped value,
)

load_from-map_lines :
    (m acc : Entries) → HasKeys m → load_from acc (map_lines m) ≡ some (import_map m acc)
unfolding load_from map_lines import_map
load_from-map_lines [] acc a = refl
load_from-map_lines ((key, value) ∷ m) acc a =
    rw (load_line-line_of acc key value a.0.0, load_from) (load_from-map_lines m _ a.1)

-- An entry with an empty value is not written so that it can be read.
abbrev pub with_value : Option Bytes → Option Bytes
with_value none = none
with_value (some []) = none
with_value (some (c ∷ v)) = some (c ∷ v)

find-import_map :
    (k : Bytes) (m acc : Entries)
    → StdMap.Unique m
    → StdMap.find k (import_map m acc) ≡ or_some (StdMap.find k acc) (with_value (StdMap.find k m))
unfolding import_map StdMap.find
find-import_map k [] acc u = ground arith
find-import_map k ((key, []) ∷ m) acc u =
    ground (arith, find-import_map k m acc u.1, u.0, bytes_beq_iff key k)
find-import_map k ((key, c ∷ v) ∷ m) acc u = ground (
  arith,
  find-import_map k m (StdMap.insert key (c ∷ v) acc) u.1,
  u.0,
  StdMap.find-insert k key (c ∷ v) acc,
  bytes_beq_iff key k,
)

-- Saving a map and loading it gives the same entries back, but for those with an empty value, which
-- are lost. The keys hold neither `=` nor a newline; the values are any bytes.
pub load_map-save_map :
    (m : Entries)
    → StdMap.Unique m
    → HasKeys m
    → (text : Bytes) × (m' : Entries) × (save_map m ≡ some text)
      × (load_map text ≡ some m')
      × ((k : Bytes) → StdMap.find k m' ≡ with_value (StdMap.find k m))
unfolding load_map lines_of
load_map-save_map m u a = (
  file_text (map_lines m),
  import_map m [],
  save_map-file_text m,
  ap (load_from []) (read_lines-map_lines m _ a (omega arith)) ∙ load_from-map_lines m [] a,
  λ k. unfold StdMap.find in find-import_map k m [] u,
)
