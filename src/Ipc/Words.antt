-- ===== src/Ipc/Words.antt =====
-- What src/ThinIPC.cpp asks of the machine: little-endian numbers, shorts as their 16-bit patterns, and
-- blocks of memory. An access outside its block is `none`.
use libcernvm.Prelude.{
  ℕ, zero, suc, ◌+◌, ◌-◌, ◌*◌, ◌/◌, ◌%◌, Bool, ◌&&◌, [], ◌∷◌, ◌++◌, Option, none, some,
  if◌then◌else◌, length, take, drop, leb, ltb,
}
use libcernvm.Prelude.Keys.{Bytes}

-- The lowest bytes of a number, lowest first.
unfoldable pub le_bytes : ℕ → ℕ → Bytes
le_bytes zero v = []
le_bytes (suc n) v = (v % 256) ∷ le_bytes n (v / 256)

unfoldable pub of_le : Bytes → ℕ
of_le [] = 0
of_le (b ∷ bs) = b + 256 * of_le bs

-- A result cut to a short.
abbrev pub short : ℕ → ℕ
short n = n % 65536

-- The value of a short, raised by 32768: shorts compare as the ints that they are promoted to.
abbrev pub biased : ℕ → ℕ
biased p = if ltb p 32768 then p + 32768 else p - 32768

-- A short as the size_t that it is converted to.
abbrev pub as_size : ℕ → ℕ
as_size p = if ltb p 32768 then p else p + 18446744073709486080

-- The allocator: whether a block of a size is there to be had, and what stands in a fresh block.
pub record Memory : Type 0 where
  pub alloc : ℕ → Bool
  pub stray : ℕ → ℕ

unfoldable pub strays : (ℕ → ℕ) → ℕ → ℕ → Bytes
strays stray zero at = []
strays stray (suc n) at = stray at ∷ strays stray n (suc at)

-- realloc that succeeds: the old bytes, and stray ones behind them.
unfoldable pub resize : Memory → ℕ → Bytes → Bytes
resize mem n block = take n (block ++ strays mem.stray n (length block))

-- memcpy out of a block; the length and the position are shorts.
unfoldable pub read_block : ℕ → ℕ → Bytes → Option Bytes
read_block n pos block =
    if ltb n 32768 && ltb pos 32768 && leb (pos + n) (length block)
    then some (take n (drop pos block))
    else none

-- memcpy into a block.
unfoldable pub write_block : ℕ → Bytes → Bytes → Option Bytes
write_block pos bytes block =
    if ltb pos 32768 && leb (pos + length bytes) (length block)
    then some (take pos block ++ (bytes ++ drop (pos + length bytes) block))
    else none
