-- ===== src/VBox/Probes.antt =====
-- VBoxLogProbe of src/Hypervisor/Virtualbox/VBoxProbes.cpp: what the log of a machine tells of it.
pub mod Ends
pub mod Depth
mod Tests
use libcernvm.Prelude.Texts.{codes}
use libcernvm.Prelude.{
  ℕ, zero, suc, ◌+◌, ◌-◌, ◌%◌, ◌≡◌, Bool, true, false, not, ◌&&◌, ◌||◌, List, [], ◌∷◌, ◌++◌, Option,
  none, some, if◌then◌else◌, is_nil, ltb, leb, ◌==◌, length, drop,
}
use libcernvm.Prelude.Keys.{Bytes, bytes_beq}
use libcernvm.Floppy.Image.{until_nul}
use libcernvm.Utilities.Text.Positions.{npos, find_char, find_text, cut}
use libcernvm.Utilities.Numbers.{ston}
use libcernvm.VBox.Session.{ss_missing, ss_poweroff, ss_saved, ss_paused, ss_running}

pub record LogProbe : Type 0 where
  pub has_state : Bool
  pub state : ℕ
  pub has_failures : Bool
  pub failures : ℕ
  pub has_resolution_change : Bool
  pub res_width : ℕ
  pub res_height : ℕ
  pub res_bpp : ℕ

-- The reset of analyze
unfoldable pub fresh_probe : LogProbe
fresh_probe = record {
  has_state = false;
  state = ss_poweroff;
  has_failures = false;
  failures = 0;
  has_resolution_change = false;
  res_width = 0;
  res_height = 0;
  res_bpp = 0;
}

-- HFL_NO_VIRTUALIZATION
abbrev pub no_virtualization : ℕ
no_virtualization = 1

-- The stream of the log: what is left of it, and its bits eof and fail.
pub record LogStream : Type 0 where
  pub rest : Bytes
  pub eof : Bool
  pub failed : Bool

-- Why a line ends.
pub data End : Type 0 where
  newline : End
  at_eof : End
  full : End

-- The bytes of a line of at most `room` bytes, and what is behind it.
unfoldable pub line_of : ℕ → Bytes → Bytes × Bytes × End
line_of room [] = ([], [], End.at_eof)
line_of zero (c ∷ s) = if c == 10 then ([], s, End.newline) else ([], c ∷ s, End.full)
line_of (suc room) (c ∷ s) =
    let (line, rest, end) = line_of room s in
    if c == 10 then ([], s, End.newline) else (c ∷ line, rest, end)

-- istream::getline into a buffer with room for so many bytes
unfoldable pub get_line : ℕ → LogStream → Bytes × LogStream
get_line room s =
    let (line, rest, end) = line_of room s.rest in
    if s.eof || s.failed then ([], record s { failed = true }) else elim end [
      | End.newline ↦ (line, record s { rest = rest })
      | End.at_eof ↦ (line, record s { rest = rest; eof = true; failed = is_nil line })
      | End.full ↦ (line, record s { rest = rest; failed = true })
    ]

-- The names that the log gives to states.
unfoldable pub named_state : Bytes → ℕ → ℕ
named_state name state =
    if bytes_beq name (codes "RUNNING")
    then ss_running
    else if bytes_beq name (codes "SUSPENDED")
    then ss_paused
    else if bytes_beq name (codes "OFF")
    then ss_poweroff
    else state

unfoldable pub is_saving : Bytes → Bool
is_saving name = bytes_beq name (codes "SAVING")

-- The text in the second quotation behind a position.
unfoldable pub second_quotation : Bytes → ℕ → Option Bytes
second_quotation line start =
    let q1 = find_char 39 line start in
    let q2 = find_char 39 line (q1 + 1) in
    let q3 = find_char 39 line (q2 + 1) in
    let q4 = find_char 39 line (q3 + 1) in
    if q1 == npos || q2 == npos || q3 == npos || q4 == npos
    then none
    else some (cut (q3 + 1) (q4 - q3 - 1) line)

-- A line with a change of the state, and whether it is to SAVING.
unfoldable pub note_change : Bytes → ℕ → LogProbe → LogProbe × Bool
note_change line start p = elim (second_quotation line start) [
  | none ↦ (record p { has_state = true }, false)
  | some name ↦ (
    record p {
      has_state = true;
      state = if is_saving name then ss_saved else named_state name p.state;
    },
    is_saving name,
  )
]

-- A number between a mark and the blank behind it: the bytes of it that are taken are those behind the
-- second one of the mark, less a number of them; none when there is no mark or no blank.
unfoldable pub component : Bytes → ℕ → Bytes → ℕ → Option ℕ
component mark less line start =
    let q_start = find_text mark line start in
    let q_end = find_char 32 line q_start in
    if q_start == npos || q_end == npos
    then none
    else some (ston (cut (q_start + 2) (q_end - q_start - less) line))

-- A line with a change of the resolution
unfoldable pub note_resize : Bytes → ℕ → LogProbe → LogProbe
note_resize line start p0 =
    let p = record p0 { has_resolution_change = true } in
    elim (component (codes "w=") 2 line start) [
      | none ↦ p
      | some w ↦ elim (component (codes "h=") 2 line start) [
        | none ↦ record p { res_width = w }
        | some h ↦ elim (component (codes "bpp=") 4 line start) [
          | none ↦ record p { res_width = w; res_height = h }
          | some bpp ↦ record p { res_width = w; res_height = h; res_bpp = bpp }
        ]
      ]
    ]

abbrev change_text : Bytes
change_text = codes "Changing the VM state from"

abbrev resize_text : Bytes
resize_text = codes "Display::handleDisplayResize"

abbrev warning_text : Bytes
warning_text = codes "WARNING! "

abbrev no_64_bit_text : Bytes
no_64_bit_text = codes "64-bit guest type selected but the host CPU does NOT support 64-bit"

abbrev no_virtualization_text : Bytes
no_virtualization_text =
    codes "64-bit guest type selected but the host CPU does NOT support HW virtualization"

unfoldable pub contains_text : Bytes → Bytes → Bool
contains_text text line = not (find_text text line 0 == npos)

-- A line with a warning; the flag is or-ed to flags of the same value.
unfoldable pub note_warning : Bytes → LogProbe → LogProbe
note_warning line p = record p {
  has_failures = true;
  failures =
      if contains_text no_64_bit_text line
      then no_virtualization
      else if contains_text no_virtualization_text line
      then no_virtualization
      else p.failures;
}

-- The body of the loop, on a line, and whether it closes the log.
unfoldable pub note_line : Bool → Bytes → LogProbe → LogProbe × Bool
note_line block_state_change line p =
    if contains_text change_text line && not block_state_change
    then note_change line (find_text change_text line 0) p
    else if contains_text resize_text line
    then (note_resize line (find_text resize_text line 0) p, false)
    else if contains_text warning_text line
    then (note_warning line p, false)
    else (p, false)

-- inBuffer has 1024 bytes, and getline is told of 1023, one of them for the end of the text.
abbrev pub line_room : ℕ
line_room = 1022

-- The loop of analyze; a log that is closed has nothing left.
unfoldable pub scan : ℕ → LogStream → Bool → LogProbe → Option LogProbe
scan zero s block_state_change p = none
scan (suc fuel) s block_state_change p =
    let (line, s') = get_line line_room s in
    let (p', saving) = note_line block_state_change (until_nul line) p in
    let rest =
      scan fuel (if saving then record s' { rest = [] } else s') (block_state_change || saving)
        p' in
    if s.eof then some p else rest

unfoldable pub last_bytes : ℕ → Bytes → Bytes
last_bytes n text = drop (length text - n) text

-- What analyze reads of a file: all of it for a size that is not positive, and else its last bytes. The
-- length of the file is stored in an int, here its pattern of 32 bits: a negative one seeks forward from
-- the end, where nothing is left; the least int is taken to be its own negation.
unfoldable pub tail_of : ℕ → Bytes → Bytes
tail_of tail_size text =
    let seek_size = length text % 4294967296 in
    if not (ltb 0 tail_size)
    then text
    else if ltb seek_size 2147483648
    then last_bytes (if ltb tail_size seek_size then tail_size else seek_size) text
    else if seek_size == 2147483648
    then last_bytes 2147483648 text
    else []

-- analyze, on a log that is there or not
unfoldable pub analyze : ℕ → ℕ → Option Bytes → Option LogProbe
analyze fuel tail_size none = some (record fresh_probe { state = ss_missing })
analyze fuel tail_size (some text) =
    scan fuel (record { rest = tail_of tail_size text; eof = false; failed = false }) false
      fresh_probe
