-- ===== src/Utilities/Text.antt =====
-- Splitting of texts in src/Utilities.cpp, over the positions of std::string.
pub mod Positions
pub mod Tokens
use libcernvm.Prelude.Texts.{codes}
use libcernvm.Prelude.{
  ℕ, zero, suc, ◌+◌, ◌-◌, Bool, true, false, not, ◌&&◌, List, [], ◌∷◌, ◌++◌, Option, none, some,
  if◌then◌else◌, length, take, drop, get_or, get_elem?, ltb, leb, ◌==◌, is_nil,
}
use libcernvm.Prelude.Member.{mem}
use libcernvm.Prelude.Keys.{Bytes, bytes_key}
use libcernvm.StdMap
use libcernvm.StdMap.{Map, is_some}
use libcernvm.LocalConfig.File.{lines_of, getline, break_at}
use libcernvm.Utilities.Text.Positions.{npos, find_char, find_last_char, find_text, cut}

-- stripComponent
unfoldable pub strip_component : Bytes → Bytes
strip_component path =
    let slash = find_last_char b'/' path in
    cut 0 (if slash == npos then find_last_char b'\\' path else slash) path

-- getURLFilename, behind getFilename: `pos - 1` is a size_t
unfoldable pub before : ℕ → ℕ
before pos = if pos == 0 then npos else pos - 1

unfoldable pub url_filename : Bytes → Bytes
url_filename filename =
    let pos = find_char b'?' filename 0 in
    let pos' = find_char b'#' filename 0 in
    if pos == npos
    then if pos' == npos then filename else cut 0 (before pos') filename
    else cut 0 (before pos) filename

-- split and explode: the tokens that std::getline reads.
unfoldable pub tokens : ℕ → ℕ → Bytes → List Bytes
tokens delimiter zero s = []
tokens delimiter (suc fuel) s = elim (getline delimiter s) [
  | none ↦ []
  | some (tok, rest) ↦ tok ∷ tokens delimiter fuel rest
]

unfoldable pub split : Bytes → ℕ → List Bytes
split s delimiter = tokens delimiter (length s) s

unfoldable pub explode : Bytes → ℕ → List Bytes → List Bytes
explode input sep output = output ++ split input sep

-- The loop of explodeStr: the second argument of `substr` is the position of the separator. The
-- loop moves on by a byte at least when the separator is not empty.
unfoldable pub explode_loop : ℕ → Bytes → Bytes → ℕ → Option (List Bytes)
explode_loop zero input sep lp = none
explode_loop (suc fuel) input sep lp =
    let i = find_text sep input lp in
    let rest = cut lp (length input) input in
    let more = explode_loop fuel input sep (i + length sep) in
    if i == npos
    then some (if is_nil rest then [] else rest ∷ [])
    else elim more [ none ↦ none | some pieces ↦ some (cut lp i input ∷ pieces) ]

unfoldable pub explode_str : Bytes → Bytes → List Bytes → Option (List Bytes)
explode_str input sep output = elim (explode_loop (suc (length input)) input sep 0) [
  | none ↦ none
  | some pieces ↦ some (output ++ pieces)
]

-- getKV: the position of the delimiter, the key and the value.
unfoldable pub skip_blanks : Bytes → Bytes
skip_blanks [] = []
skip_blanks (c ∷ s) = if mem c (codes " \t") then skip_blanks s else c ∷ s

unfoldable pub get_kv : Bytes → ℕ → ℕ → ℕ × Bytes × Bytes
get_kv line delim offset =
    let a = find_char delim line offset in
    if a == npos
    then (0, line, [])
    else (a, cut offset (a - offset) line, skip_blanks (drop (a + 1) line))

-- trimSplit. The next delimiter is looked for behind the first byte of a part.
unfoldable pub next_delimiter : Bytes → ℕ → ℕ → Bytes → ℕ
next_delimiter [] from nearest line = nearest
next_delimiter (c ∷ delimiters) from nearest line =
    let pos = find_char c line (from + 1) in
    next_delimiter delimiters from (if not (pos == npos) && ltb pos nearest then pos else nearest)
      line

unfoldable pub skip_trim : Bytes → Bytes → ℕ
skip_trim trim [] = 0
skip_trim trim (c ∷ s) = let more = skip_trim trim s in if mem c trim then suc more else 0

unfoldable pub trim_loop : ℕ → Bytes → Bytes → Bytes → ℕ → ℕ → ℕ → List Bytes
trim_loop zero line delimiters trim limit splits ofs = []
trim_loop (suc fuel) line delimiters trim limit splits ofs =
    let found = next_delimiter delimiters ofs (length line) line in
    let splits' = if ltb 0 limit then suc splits else splits in
    let next = if ltb 0 limit && leb limit splits' then length line else found in
    let behind = suc next + skip_trim trim (drop (suc next) line) in
    let rest = trim_loop fuel line delimiters trim limit splits' behind in
    if ltb ofs (length line)
    then cut ofs (next - ofs) line ∷ (if next == length line then [] else rest)
    else []

unfoldable pub trim_split : Bytes → Bytes → Bytes → ℕ → List Bytes
trim_split line delimiters trim limit = trim_loop (suc (length line)) line delimiters trim limit 0 0

-- parseLines
unfoldable pub parse_lines : List Bytes → Bytes → Bytes → ℕ → ℕ → Map Bytes Bytes → Map Bytes Bytes
parse_lines [] csplit ctrim key value m = m
parse_lines (line ∷ lines) csplit ctrim key value m =
    let parts = trim_split line csplit ctrim 2 in
    let m' = StdMap.insert (get_or parts key []) (get_or parts value []) m in
    let within = ltb key (length parts) && ltb value (length parts) in
    parse_lines lines csplit ctrim key value (if within then m' else m)

-- splitLines: a line ends at its first carriage return as well.
unfoldable pub trim_junk : Bytes → Bytes
trim_junk item =
    let item' = cut 0 (find_char b'\r' item 0) item in cut 0 (find_char b'\n' item' 0) item'

unfoldable pub trim_each : List Bytes → List Bytes
trim_each [] = []
trim_each (item ∷ items) = trim_junk item ∷ trim_each items

unfoldable pub split_lines : Bytes → List Bytes
split_lines raw = trim_each (lines_of raw)

-- tokenize: of two lines with one key the first counts.
unfoldable pub tokenize_into : List Bytes → ℕ → Map Bytes Bytes → Map Bytes Bytes
tokenize_into [] delim m = m
tokenize_into (line ∷ lines) delim m =
    let (_, key, value) = get_kv line delim 0 in
    let m' = if is_some (StdMap.find key m) then m else StdMap.insert key value m in
    tokenize_into lines delim (if find_char delim line 0 == npos then m else m')

unfoldable pub tokenize : List Bytes → ℕ → Map Bytes Bytes
tokenize lines delim = tokenize_into lines delim []

-- tokenizeList: groups end at an empty line, and of two lines with one key the last counts.
unfoldable pub tokenize_rows : List Bytes → ℕ → Map Bytes Bytes → List (Map Bytes Bytes)
tokenize_rows [] delim row = if is_nil row then [] else row ∷ []
tokenize_rows (line ∷ lines) delim row =
    let (_, key, value) = get_kv line delim 0 in
    let bare = find_char delim line 0 == npos in
    let ends = bare && is_nil line in
    let row' = if bare then row else StdMap.insert key value (StdMap.erase key row) in
    let rest = tokenize_rows lines delim (if ends then [] else row') in
    if ends then row ∷ rest else rest

unfoldable pub tokenize_list : List Bytes → ℕ → List (Map Bytes Bytes)
tokenize_list lines delim = tokenize_rows lines delim []
