-- ===== src/Ipc/RoundTrip.antt =====
-- Messages of any fields, written and read back.
use libcernvm.Prelude.{
  ℕ, ◌+◌, ◌<◌, ◌≡◌, refl, sym, List, [], ◌∷◌, ◌++◌, Option, none, some, arith, length,
  length-append, append_assoc, append-nil, map,
}
use libcernvm.Prelude.Keys.{Bytes}
use libcernvm.Prelude.Member.{All}
use libcernvm.Ipc.Words.{le_bytes, Memory}
use libcernvm.Ipc.Message.{
  Message, reset, rewind, write_int, write_short, write_string, read_int, read_short, read_string,
}
use libcernvm.Ipc.Blocks.{IsRoomy, between, full, length-le_bytes}
use libcernvm.Ipc.Writes.{text_bytes, write_int-full, write_short-full, write_string-full}
use libcernvm.Ipc.Reads.{read_int-between, read_short-between, read_string-between}

pub data Kind : Type 0 where
  int_kind short_kind string_kind : Kind

pub data Field : Type 0 where
  int_field : ℕ → Field
  short_field : ℕ → Field
  string_field : Bytes → Field

abbrev pub kind_of : Field → Kind
kind_of (int_field v) = int_kind
kind_of (short_field v) = short_kind
kind_of (string_field v) = string_kind

-- A field's number fits its bytes.
abbrev pub Fits : Field → Type 0
Fits (int_field v) = v < 4294967296
Fits (short_field v) = v < 65536
Fits (string_field v) = Unit

abbrev pub field_bytes : Field → Bytes
field_bytes (int_field v) = le_bytes 4 v
field_bytes (short_field v) = le_bytes 2 v
field_bytes (string_field v) = text_bytes v

abbrev pub fields_bytes : List Field → Bytes
fields_bytes [] = []
fields_bytes (f ∷ fs) = field_bytes f ++ fields_bytes fs

abbrev pub write_field : Memory → Field → Message → Option (ℕ × Message)
write_field mem (int_field v) m = write_int mem v m
write_field mem (short_field v) m = write_short mem v m
write_field mem (string_field v) m = write_string mem v m

-- A run of writes.
unfoldable pub write_fields : Memory → List Field → Message → Option Message
write_fields mem [] m = some m
write_fields mem (f ∷ fs) m = elim (write_field mem f m) [
  | none ↦ none
  | some (_, m') ↦ write_fields mem fs m'
]

abbrev pub read_field : Memory → Kind → Message → Option (Field × Message)
read_field mem int_kind m = elim (read_int 4 m) [
  | none ↦ none
  | some (v, m') ↦ some (int_field v, m')
]
read_field mem short_kind m = elim (read_short m) [
  | none ↦ none
  | some (v, m') ↦ some (short_field v, m')
]
read_field mem string_kind m = elim (read_string mem m) [
  | none ↦ none
  | some (v, m') ↦ some (string_field v, m')
]

-- A run of reads.
unfoldable pub read_fields : Memory → List Kind → Message → Option (List Field × Message)
read_fields mem [] m = some ([], m)
read_fields mem (k ∷ ks) m = elim (read_field mem k m) [
  | none ↦ none
  | some (f, m') ↦ elim (read_fields mem ks m') [
    | none ↦ none
    | some (fs, m'') ↦ some (f ∷ fs, m'')
  ]
]

write_field-full :
    (mem : Memory) (f : Field) (pre : Bytes)
    → IsRoomy mem
    → length pre + length (field_bytes f) < 32768
    → (n : ℕ) × (write_field mem f (full pre) ≡ some (n, full (pre ++ field_bytes f)))
write_field-full mem (int_field v) pre roomy h =
    (4, write_int-full mem v pre roomy (omega (arith, length-le_bytes 4 v)))
write_field-full mem (short_field v) pre roomy h =
    (2, write_short-full mem v pre roomy (omega (arith, length-le_bytes 2 v)))
write_field-full mem (string_field v) pre roomy h = (
  length v,
  write_string-full mem v pre roomy
      (omega (arith, length-append (le_bytes 2 (length v)) v, length-le_bytes 2 (length v))),
)

write_fields-full :
    (mem : Memory) (fs : List Field) (pre : Bytes)
    → IsRoomy mem
    → length (pre ++ fields_bytes fs) < 32768
    → write_fields mem fs (full pre) ≡ some (full (pre ++ fields_bytes fs))
unfolding write_fields
write_fields-full mem [] pre roomy h = rw (append-nil pre) refl
write_fields-full mem (f ∷ fs) pre roomy h =
    let bytes = field_bytes f in
    let rest = fields_bytes fs in
    let (n, e) =
      write_field-full mem f pre roomy
        (omega (arith, length-append pre (bytes ++ rest), length-append bytes rest)) in
    rw (e, write_fields, sym (append_assoc pre bytes rest))
      (write_fields-full mem fs (pre ++ bytes) roomy (rw (append_assoc pre bytes rest) h))

read_field-between :
    (mem : Memory) (f : Field) (done rest : Bytes)
    → IsRoomy mem
    → Fits f
    → length (done ++ (field_bytes f ++ rest)) < 32768
    → read_field mem (kind_of f) (between done (field_bytes f ++ rest))
      ≡ some (f, between (done ++ field_bytes f) rest)
read_field-between mem (int_field v) done rest roomy u h =
    rw (read_field, read_int-between v done rest u h) refl
read_field-between mem (short_field v) done rest roomy u h =
    rw (read_field, read_short-between v done rest u h) refl
read_field-between mem (string_field v) done rest roomy u h =
    rw (read_field, read_string-between mem v done rest roomy h) refl

read_fields-between :
    (mem : Memory) (fs : List Field) (done : Bytes)
    → IsRoomy mem
    → All Fits fs
    → length (done ++ fields_bytes fs) < 32768
    → read_fields mem (map kind_of fs) (between done (fields_bytes fs))
      ≡ some (fs, full (done ++ fields_bytes fs))
unfolding read_fields
read_fields-between mem [] done roomy a h = rw (append-nil done) refl
read_fields-between mem (f ∷ fs) done roomy a h =
    let bytes = field_bytes f in
    let rest = fields_bytes fs in
    let later =
      read_fields-between mem fs (done ++ bytes) roomy a.1 (rw (append_assoc done bytes rest) h) in
    rw
      (
        read_field-between mem f done rest roomy a.0 h,
        read_fields,
        later,
        append_assoc done bytes rest,
      )
      refl

-- Fields written into an empty message and read back behind a rewind, in the same order and each as
-- the kind that it is: every write works, and the reads give the fields and end behind the last.
-- The numbers fit their bytes, all the bytes together are fewer than 2 ^ 15, the allocator has
-- every block of such a size, and a `long int` has four bytes.
pub read_fields-write_fields :
    (mem : Memory) (fs : List Field)
    → IsRoomy mem
    → All Fits fs
    → length (fields_bytes fs) < 32768
    → (m : Message) × (m' : Message) × (write_fields mem fs reset ≡ some m)
      × (read_fields mem (map kind_of fs) (rewind m) ≡ some (fs, m'))
      × (m'.io_pos ≡ m.size)
unfolding reset rewind
read_fields-write_fields mem fs roomy a h = (
  full (fields_bytes fs),
  full (fields_bytes fs),
  write_fields-full mem fs [] roomy h,
  read_fields-between mem fs [] roomy a h,
  refl,
)
