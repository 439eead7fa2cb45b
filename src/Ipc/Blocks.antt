-- ===== src/Ipc/Blocks.antt =====
-- Numbers and blocks: what is found in the middle of a block, and how a full block grows.
use native.Mathlib.Nat.{zero-add, suc-add}
use libcernvm.Prelude.{
  ℕ, zero, suc, ◌+◌, ◌/◌, ◌≤◌, ◌<◌, ◌≡◌, refl, sym, ap, ◌∙◌, true, [], ◌∷◌, ◌++◌, some, arith,
  length, take, drop, length-append,
}
use libcernvm.Prelude.Keys.{Bytes}
use libcernvm.Ipc.Words.{
  le_bytes, of_le, short, as_size, Memory, strays, resize, read_block, write_block,
}
use libcernvm.Ipc.Message.{Message, grow}

pub length-le_bytes : (n v : ℕ) → length (le_bytes n v) ≡ n
unfolding le_bytes
length-le_bytes zero v = refl
length-le_bytes (suc n) v = ap suc (length-le_bytes n (v / 256))

pub of_le-le_bytes_two : (v : ℕ) → v < 65536 → of_le (le_bytes 2 v) ≡ v
unfolding of_le le_bytes
of_le-le_bytes_two v h = omega arith

pub of_le-le_bytes_four : (v : ℕ) → v < 4294967296 → of_le (le_bytes 4 v) ≡ v
unfolding of_le le_bytes
of_le-le_bytes_four v h = omega arith

pub length-strays : (stray : ℕ → ℕ) (n at : ℕ) → length (strays stray n at) ≡ n
unfolding strays
length-strays stray zero at = refl
length-strays stray (suc n) at = ap suc (length-strays stray n (suc at))

pub take_all : (xs : Bytes) (n : ℕ) → length xs ≤ n → take n xs ≡ xs
take_all [] zero h = refl
take_all [] (suc n) h = refl
take_all (x ∷ xs) zero h = absurd (omega arith)
take_all (x ∷ xs) (suc n) h = ap (◌∷◌ x) (take_all xs n (omega arith))

pub drop_all : (xs : Bytes) (n : ℕ) → length xs ≤ n → drop n xs ≡ []
drop_all [] zero h = refl
drop_all [] (suc n) h = refl
drop_all (x ∷ xs) zero h = absurd (omega arith)
drop_all (x ∷ xs) (suc n) h = drop_all xs n (omega arith)

pub take-append : (xs ys : Bytes) → take (length xs) (xs ++ ys) ≡ xs
take-append [] ys = refl
take-append (x ∷ xs) ys = ap (◌∷◌ x) (take-append xs ys)

pub drop-append : (xs ys : Bytes) → drop (length xs) (xs ++ ys) ≡ ys
drop-append [] ys = refl
drop-append (x ∷ xs) ys = drop-append xs ys

-- A full block grown by some bytes.
pub resize-full :
    (mem : Memory) (n : ℕ) (block : Bytes)
    → resize mem (length block + n) block
      ≡ block ++ take n (strays mem.stray (length block + n) (length block))
unfolding resize
resize-full mem n block = more block (strays mem.stray (length block + n) (length block))
  where
    more : (xs ys : Bytes) → take (length xs + n) (xs ++ ys) ≡ xs ++ take n ys
    more [] ys = rw (zero-add) refl
    more (x ∷ xs) ys = rw (suc-add) (ap (◌∷◌ x) (more xs ys))

-- A message that holds two runs of bytes, with the position between them.
abbrev pub between : Bytes → Bytes → Message
between done rest = record {
  payload = done ++ rest;
  size = length (done ++ rest);
  io_pos = length done;
  chunk_pos = 0;
}

-- A message whose bytes are all written.
abbrev pub full : Bytes → Message
full block = record { payload = block; size = length block; io_pos = length block; chunk_pos = 0 }

pub drop_beyond : (pre ys : Bytes) (n : ℕ) → drop (length pre + n) (pre ++ ys) ≡ drop n ys
drop_beyond [] ys n = rw (zero-add) refl
drop_beyond (x ∷ pre) ys n = rw (suc-add) (drop_beyond pre ys n)

pub write_block-middle :
    (pre old rest bytes : Bytes)
    → length old ≡ length bytes
    → length pre < 32768
    → write_block (length pre) bytes (pre ++ (old ++ rest)) ≡ some (pre ++ (bytes ++ rest))
unfolding write_block
write_block-middle pre old rest bytes h short_enough = ground (
  arith,
  length-append pre (old ++ rest),
  length-append old rest,
  take-append pre (old ++ rest),
  tail,
)
  where
    tail : drop (length pre + length bytes) (pre ++ (old ++ rest)) ≡ rest
    tail = drop_beyond pre (old ++ rest) (length bytes) ∙ rw (sym h) (drop-append old rest)

pub read_block-middle :
    (pre bytes rest : Bytes)
    → length pre + length bytes < 32768
    → read_block (length bytes) (length pre) (pre ++ (bytes ++ rest)) ≡ some bytes
unfolding read_block
read_block-middle pre bytes rest h = ground (
  arith,
  length-append pre (bytes ++ rest),
  length-append bytes rest,
  drop-append pre (bytes ++ rest),
  take-append bytes rest,
)

-- The allocator has every block that a short can ask for.
abbrev pub IsRoomy : Memory → Type 0
IsRoomy mem = (n : ℕ) → n < 32768 → mem.alloc n ≡ true

pub length-take : (n : ℕ) (xs : Bytes) → n ≤ length xs → length (take n xs) ≡ n
length-take zero xs h = refl
length-take (suc n) [] h = absurd (omega arith)
length-take (suc n) (x ∷ xs) h = ap suc (length-take n xs (omega arith))

pub short-small : (n : ℕ) → n < 32768 → short n ≡ n
short-small n h = omega arith

pub as_size-small : (n : ℕ) → n < 32768 → as_size n ≡ n
as_size-small n h = ground arith

pub grow-full :
    (mem : Memory) (n : ℕ) (block : Bytes)
    → IsRoomy mem
    → length block + n < 32768
    → (fresh : Bytes) × (length fresh ≡ n)
      × (grow mem n (full block) ≡ (
        record {
          payload = block ++ fresh;
          size = length block + n;
          io_pos = length block;
          chunk_pos = 0;
        },
        true,
      ))
unfolding grow
grow-full mem n block roomy h =
    let ys = strays mem.stray (length block + n) (length block) in
    (
      take n ys,
      length-take n ys (omega (arith, length-strays mem.stray (length block + n) (length block))),
      rw
          (
            short-small (length block + n) h,
            as_size-small (length block + n) h,
            roomy (length block + n) h,
            resize-full mem n block,
          )
          refl,
    )
