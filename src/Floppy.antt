-- ===== src/Floppy.antt =====
-- src/floppyIO.cpp: the floppy image through which the host and the guest exchange texts. The host
-- writes the out box and the control byte behind both boxes, and reads the in box.
pub mod Image
mod Mailbox
mod Opening
mod Sent
mod Tests
use libcernvm.Prelude.{
  ℕ, ◌+◌, ◌-◌, ◌/◌, ◌%◌, Bool, true, false, not, ◌&&◌, List, [], ◌∷◌, ◌++◌, Option, none, some,
  if◌then◌else◌, length, take, replicate, ltb, leb, is_nil,
}
use libcernvm.Prelude.Keys.{Bytes}
use libcernvm.Floppy.Image.{Stream, write_at, read_at, c_string}

-- DEFAULT_FLOPPY_SIZE
abbrev pub default_floppy_size : ℕ
default_floppy_size = 28672

pub record Floppy : Type 0 where
  pub ofs_input : ℕ
  pub sz_input : ℕ
  pub ofs_output : ℕ
  pub sz_output : ℕ
  pub ofs_ctrl_byte_in : ℕ
  pub ofs_ctrl_byte_out : ℕ
  pub f_io : Option Stream
  pub sz_floppy : ℕ

-- The members behind an open file: the offsets and sizes of the parts.
unfoldable pub prepared : Stream → Floppy
prepared s =
    let size = default_floppy_size in
    let out = size / 2 - 1 in
    record {
      ofs_input = out;
      sz_input = out;
      ofs_output = 0;
      sz_output = out;
      ofs_ctrl_byte_in = out + out + 1;
      ofs_ctrl_byte_out = out + out;
      f_io = some s;
      sz_floppy = size;
    }

unfoldable pub reset : Floppy → Floppy
reset f = elim f.f_io [
  | none ↦ f
  | some s ↦ record f { f_io = some (write_at 0 (replicate f.sz_floppy 0) s) }
]

-- A length as the int that it is stored in, and the size_t that the int is passed on as.
abbrev is_negative : ℕ → Bool
is_negative n = not (ltb (n % 4294967296) 2147483648)

abbrev as_int : ℕ → ℕ
as_int n = n % 4294967296

abbrev as_size_t : ℕ → ℕ
as_size_t n = if ltb n 2147483648 then n else n + 18446744069414584320

-- How many bytes `copy` is asked for.
unfoldable pub copy_count : ℕ → ℕ → ℕ
copy_count size len =
    let sz_data = as_int len in
    if not (is_negative sz_data) && ltb (size - 1) sz_data then size - 1 else as_size_t sz_data

-- The zeroed buffer with the copied bytes at its start; `none` when they pass its end.
unfoldable pub send_buffer : ℕ → Bytes → Option Bytes
send_buffer size text =
    let copied = take (copy_count size (length text)) text in
    if leb (length copied) size then some (copied ++ replicate (size - length copied) 0) else none

unfoldable pub send : Bytes → Floppy → Option Floppy
send text f = elim f.f_io [
  | none ↦ some f
  | some s ↦ elim (send_buffer f.sz_output text) [
    | none ↦ none
    | some buffer ↦
        let sent = write_at f.ofs_output buffer s in
        some (record f { f_io = some (write_at f.ofs_ctrl_byte_out (1 ∷ []) sent) })
  ]
]

-- The bytes that were read: the guest is told, and they become the answer. `none` when they hold no
-- terminator, so that the text is read past their end.
unfoldable pub take_answer : Floppy → Bytes × Stream → Option (Bytes × Floppy)
take_answer f (buffer, s) = elim (c_string buffer) [
  | none ↦ none
  | some text ↦ some (text, record f { f_io = some (write_at f.ofs_ctrl_byte_in (0 ∷ []) s) })
]

unfoldable pub receive : Floppy → Option (Bytes × Floppy)
receive f = elim f.f_io [
  | none ↦ some ([], f)
  | some s ↦ take_answer f (read_at f.sz_input f.ofs_input s)
]

-- The file behind a name: its bytes, if it is there, and whether it can be written or created.
pub record Disk : Type 0 where
  pub file : Option Bytes
  pub writable : Bool

-- The open modes that the constructors use: in | out, in | out | trunc, and trunc alone, which
-- std::basic_filebuf refuses.
pub data Mode : Type 0 where
  in_out : Mode
  in_out_trunc : Mode
  trunc_only : Mode

abbrev pub failed_stream : Stream
failed_stream = record { bytes = []; failed = true }

unfoldable pub open_stream : Mode → Disk → Stream
open_stream in_out disk = elim disk.file [
  | none ↦ failed_stream
  | some bytes ↦ if disk.writable then record { bytes = bytes; failed = false } else failed_stream
]
open_stream in_out_trunc disk =
    if disk.writable then record { bytes = []; failed = false } else failed_stream
open_stream trunc_only disk = failed_stream

-- FloppyIO(filename)
unfoldable pub create : Disk → Floppy
create disk = reset (prepared (open_stream in_out_trunc disk))

-- FloppyIO(filename, flags), with the flags F_NOINIT and F_NOCREATE; `none` where it returns before
-- the members are set.
unfoldable pub create_with : Bool → Bool → Disk → Option Floppy
create_with no_init no_create disk =
    let first = open_stream (if no_create then in_out else trunc_only) disk in
    let second = open_stream in_out_trunc disk in
    if no_create && first.failed
    then if second.failed then none else some (reset (prepared second))
    else some (if no_init then prepared first else reset (prepared first))
