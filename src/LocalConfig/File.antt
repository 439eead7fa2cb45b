-- ===== src/LocalConfig/File.antt =====
-- The files of src/LocalConfig.cpp as byte strings: saveMap and loadMap, saveLines and loadLines,
-- saveBuffer and loadBuffer, and the std::getline that they read with.
pub mod Lines
pub mod RoundTrip
use libcernvm.Prelude.{
  ℕ, zero, suc, ◌≡◌, Bool, true, false, List, [], ◌∷◌, ◌++◌, Option, none, some, if◌then◌else◌,
  length, ◌==◌,
}
use libcernvm.Prelude.Keys.{Bytes, bytes_key}
use libcernvm.StdMap
use libcernvm.StdMap.{Map}
use libcernvm.LocalConfig.Escape.{escape_value, unescape_value}

abbrev pub Entries : Type 0
Entries = Map Bytes Bytes

-- A text up to a delimiter, and what stands behind it.
unfoldable pub break_at : ℕ → Bytes → Bytes × Bytes
break_at d [] = ([], [])
break_at d (c ∷ s) = let (line, rest) = break_at d s in if c == d then ([], s) else (c ∷ line, rest)

-- std::getline with a delimiter: at the end of the stream it fails, and the last line needs no
-- delimiter.
unfoldable pub getline : ℕ → Bytes → Option (Bytes × Bytes)
getline d [] = none
getline d (c ∷ s) = some (break_at d (c ∷ s))

-- `while (std::getline(ifs, line))`. Each round takes a byte at least, so that a text never has more
-- rounds than bytes.
unfoldable pub read_lines : ℕ → Bytes → List Bytes
read_lines zero s = []
read_lines (suc fuel) s = elim (getline b'\n' s) [
  | none ↦ []
  | some (line, rest) ↦ line ∷ read_lines fuel rest
]

unfoldable pub lines_of : Bytes → List Bytes
lines_of s = read_lines (length s) s

-- saveLines
unfoldable pub save_lines : List Bytes → Bytes
save_lines [] = []
save_lines (line ∷ lines) = line ++ (b'\n' ∷ save_lines lines)

-- loadLines
unfoldable pub load_lines : Bytes → List Bytes
load_lines = lines_of

-- saveBuffer: `ofs << buffer` with `std::string * buffer` writes the pointer, as the library prints it.
unfoldable pub save_buffer : (ℕ → Bytes) → ℕ → Bytes → Bytes
save_buffer print_pointer address buffer = print_pointer address

-- loadBuffer
unfoldable pub append_lines : Bytes → List Bytes → Bytes
append_lines buffer [] = buffer
append_lines buffer (line ∷ lines) = append_lines (buffer ++ (line ++ b'\n' ∷ [])) lines

unfoldable pub load_buffer : Bytes → Bytes
load_buffer s = append_lines [] (lines_of s)

-- saveMap, on a file that opens.
unfoldable pub save_map : Entries → Option Bytes
save_map [] = some []
save_map ((key, value) ∷ m) = elim (escape_value value) [
  | none ↦ none
  | some text ↦ elim (save_map m) [
    | none ↦ none
    | some rest ↦ some (key ++ (b'=' ∷ (text ++ (b'\n' ∷ rest))))
  ]
]

-- One round of loadMap. A line with no `=` or nothing behind it leaves no entry.
unfoldable pub load_line : Entries → Bytes → Option Entries
load_line m line = elim (getline b'=' line) [
  | none ↦ some m
  | some (key, behind) ↦ elim (getline b'\n' behind) [
    | none ↦ some m
    | some (value, _) ↦ elim (unescape_value value) [
      | none ↦ none
      | some v ↦ some (StdMap.insert key v m)
    ]
  ]
]

unfoldable pub load_from : Entries → List Bytes → Option Entries
load_from m [] = some m
load_from m (line ∷ lines) = elim (load_line m line) [ none ↦ none | some m' ↦ load_from m' lines ]

-- loadMap, on a file that opens.
unfoldable pub load_map : Bytes → Option Entries
load_map s = load_from [] (lines_of s)
