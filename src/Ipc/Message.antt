-- ===== src/Ipc/Message.antt =====
-- ThinIPCMessage of src/ThinIPC.cpp: its fields, read and written. In each result `none` is an access
-- outside a block.
use libcernvm.Prelude.{
  ℕ, ◌+◌, Bool, true, false, not, [], Option, none, some, if◌then◌else◌, length, take, ltb,
}
use libcernvm.Prelude.Keys.{Bytes}
use libcernvm.Ipc.Words.{
  le_bytes, of_le, short, biased, as_size, Memory, resize, read_block, write_block,
}

-- `payload` is data, the block, empty for the null pointer; the rest are patterns of shorts.
pub record Message : Type 0 where
  pub payload : Bytes
  pub size : ℕ
  pub io_pos : ℕ
  pub chunk_pos : ℕ

-- The constructor with no data, and what `reset` leaves.
unfoldable pub reset : Message
reset = record { payload = []; size = 0; io_pos = 0; chunk_pos = 0 }

unfoldable pub rewind : Message → Message
rewind m = record m { io_pos = 0; chunk_pos = 0 }

-- How each write begins: the size is raised and the block is grown; when that fails, four are taken
-- off the size, whatever was added.
unfoldable pub grow : Memory → ℕ → Message → Message × Bool
grow mem n m =
    let size' = short (m.size + n) in
    if mem.alloc (as_size size')
    then (record m { size = size'; payload = resize mem (as_size size') m.payload }, true)
    else (record m { size = short (size' + 65532) }, false)

-- memcpy to the position, and the position moves on.
unfoldable pub put_bytes : Bytes → Message → Option Message
put_bytes bytes m = elim (write_block m.io_pos bytes m.payload) [
  | none ↦ none
  | some block ↦ some (record m { payload = block; io_pos = short (m.io_pos + length bytes) })
]

-- The writes give the number of bytes that they answer.
unfoldable pub write_int : Memory → ℕ → Message → Option (ℕ × Message)
write_int mem v m =
    let (m', ok) = grow mem 4 m in
    if ok
    then (elim (put_bytes (le_bytes 4 v) m') [ none ↦ none | some m'' ↦ some (4, m'') ])
    else some (0, m')

unfoldable pub write_short : Memory → ℕ → Message → Option (ℕ × Message)
write_short mem v m =
    let (m', ok) = grow mem 2 m in
    if ok
    then (elim (put_bytes (le_bytes 2 v) m') [ none ↦ none | some m'' ↦ some (2, m'') ])
    else some (0, m')

-- The bytes of a string, with a length that was cut to a short; memcpy takes a negative one as huge.
unfoldable pub put_text : ℕ → Bytes → Message → Option (ℕ × Message)
put_text len v m =
    if ltb len 32768
    then (elim (put_bytes (take len v) m) [ none ↦ none | some m' ↦ some (len, m') ])
    else none

unfoldable pub write_string : Memory → Bytes → Message → Option (ℕ × Message)
write_string mem v m =
    let (m', ok) = grow mem (2 + length v) m in
    let len = short (length v) in
    if ok
    then (elim (put_bytes (le_bytes 2 len) m') [ none ↦ none | some m'' ↦ put_text len v m'' ])
    else some (0, m')

-- readInt, for a `long int` of some number of bytes: all of them are copied, and the position moves by
-- four.
unfoldable pub read_int : ℕ → Message → Option (ℕ × Message)
read_int sizeof_long m =
    if ltb (biased m.size) (biased m.io_pos + 4)
    then some (0, m)
    else elim (read_block sizeof_long m.io_pos m.payload) [
      | none ↦ none
      | some bs ↦ some (of_le bs, record m { io_pos = short (m.io_pos + 4) })
    ]

unfoldable pub read_short : Message → Option (ℕ × Message)
read_short m =
    if ltb (biased m.size) (biased m.io_pos + 2)
    then some (0, m)
    else elim (read_block 2 m.io_pos m.payload) [
      | none ↦ none
      | some bs ↦ some (of_le bs, record m { io_pos = short (m.io_pos + 2) })
    ]

-- readString behind the length.
unfoldable pub read_text : Memory → ℕ → Message → Option (Bytes × Message)
read_text mem len m =
    if ltb (biased m.size + 32768) (biased m.io_pos + biased len)
    then some ([], m)
    else if not (mem.alloc (as_size len))
    then some ([], m)
    else elim (read_block len m.io_pos m.payload) [
      | none ↦ none
      | some bs ↦ some (bs, record m { io_pos = short (m.io_pos + len) })
    ]

unfoldable pub read_string : Memory → Message → Option (Bytes × Message)
read_string mem m =
    if ltb (biased m.size) (biased m.io_pos + 2)
    then some ([], m)
    else elim (read_block 2 m.io_pos m.payload) [
      | none ↦ none
      | some bs ↦ read_text mem (of_le bs) (record m { io_pos = short (m.io_pos + 2) })
    ]

-- The shorthands, which answer the shared message; the answers of the writes are dropped.
unfoldable pub then_int : Memory → ℕ → Option (ℕ × Message) → Option Message
then_int mem v none = none
then_int mem v (some (_, m)) = elim (write_int mem v m) [ none ↦ none | some (_, m') ↦ some m' ]

unfoldable pub then_string : Memory → Bytes → Option (ℕ × Message) → Option Message
then_string mem v none = none
then_string mem v (some (_, m)) = elim (write_string mem v m) [
  | none ↦ none
  | some (_, m') ↦ some m'
]

unfoldable pub message_i : Memory → ℕ → Option Message
message_i mem v1 = then_int mem v1 (some (0, reset))

unfoldable pub message_s : Memory → Bytes → Option Message
message_s mem v1 = then_string mem v1 (some (0, reset))

unfoldable pub message_ii : Memory → ℕ → ℕ → Option Message
message_ii mem v1 v2 = then_int mem v2 (write_int mem v1 reset)

unfoldable pub message_ss : Memory → Bytes → Bytes → Option Message
message_ss mem v1 v2 = then_string mem v2 (write_string mem v1 reset)

unfoldable pub message_is : Memory → ℕ → Bytes → Option Message
message_is mem v1 v2 = then_string mem v2 (write_int mem v1 reset)

unfoldable pub message_si : Memory → Bytes → ℕ → Option Message
message_si mem v1 v2 = then_int mem v2 (write_string mem v1 reset)
