-- ===== src/Ipc/Receiving.antt =====
-- What putChunk makes of the datagrams of a message.
use libcernvm.Prelude.{
  ℕ, ◌+◌, ◌≤◌, ◌<◌, ◌≡◌, refl, sym, ap, ◌∙◌, true, false, [], ◌++◌, some, arith, length, take, drop,
  leb, length-append, append_assoc, append-nil, take-append-drop, ◌==◌,
}
use libcernvm.Prelude.Keys.{Bytes}
use libcernvm.Ipc.Words.{le_bytes, short, biased, Memory, strays, resize, read_block}
use libcernvm.Ipc.Message.{Message, reset}
use libcernvm.Ipc.Chunks.{minus, store_chunk, with_answer, first_chunk, next_chunk, put_chunk}
use libcernvm.Ipc.Blocks.{
  IsRoomy, as_size-small, read_block-middle, write_block-middle, length-le_bytes,
  of_le-le_bytes_two, length-take, length-strays,
}
use libcernvm.Ipc.Sending.{not_zero}

-- A message of which some bytes have come, with junk in the place of the others.
abbrev pub got : Bytes → Bytes → ℕ → Message
got done junk n = record { payload = done ++ junk; size = n; io_pos = 0; chunk_pos = length done }

-- memcpy of a whole piece from the buffer to its place.
store_chunk-middle :
    (done old junk pre piece tail : Bytes) (n pos : ℕ) (m : Message)
    → length piece ≡ n
    → pos ≡ length pre
    → length pre + n < 32768
    → length old ≡ n
    → length done < 32768
    → m.payload ≡ done ++ (old ++ junk)
    → store_chunk (length done) (read_block n pos (pre ++ (piece ++ tail))) m
      ≡ some (record m { payload = done ++ (piece ++ junk) })
unfolding store_chunk
store_chunk-middle done old junk pre piece tail n pos m p at small o inside whole =
    rw
      (
        at,
        sym p,
        read_block-middle pre piece tail (omega arith),
        store_chunk,
        whole,
        write_block-middle done old junk piece (o ∙ sym p) inside,
      )
      refl

pub put_chunk-next :
    (mem : Memory) (done old junk piece tail : Bytes) (n : ℕ)
    → n ≡ length done + (1024 + length junk)
    → n < 32768
    → 0 < length done
    → 0 < length junk
    → length old ≡ 1024
    → length piece ≡ 1024
    → put_chunk mem 1024 (piece ++ tail) (got done (old ++ junk) n)
      ≡ some (0, got (done ++ piece) junk n)
unfolding put_chunk next_chunk with_answer
put_chunk-next mem done old junk piece tail n total small h j o p =
    rw
      (
        open_still,
        not_zero (length done) h,
        next_chunk,
        left,
        many,
        stored,
        with_answer,
        at_next,
        append_assoc done piece junk,
      )
      refl
  where
    open_still : (length done == n) ≡ false
    open_still = ground arith

    left : minus n (length done) ≡ 1024 + length junk
    left = omega arith

    many : leb (biased (1024 + length junk)) (1024 + 32768) ≡ false
    many = ground arith

    at_next : short (length done + 1024) ≡ length (done ++ piece)
    at_next = omega (arith, length-append done piece)

    m : Message
    m = record {
      payload = done ++ (old ++ junk);
      size = n;
      io_pos = 0;
      chunk_pos = short (length done + 1024);
    }

    stored :
        store_chunk (length done) (read_block 1024 0 (piece ++ tail)) m
        ≡ some (record m { payload = done ++ (piece ++ junk) })
    stored =
        store_chunk-middle done old junk [] piece tail 1024 0 m p refl (omega arith) o (omega arith)
          refl

pub put_chunk-last :
    (mem : Memory) (done old piece tail : Bytes) (n : ℕ)
    → n ≡ length done + length piece
    → n < 32768
    → 0 < length done
    → 0 < length piece
    → length piece ≤ 1024
    → length old ≡ length piece
    → put_chunk mem 1024 (piece ++ tail) (got done old n)
      ≡ some (n, record { payload = done ++ piece; size = n; io_pos = 0; chunk_pos = length done })
unfolding put_chunk next_chunk with_answer
put_chunk-last mem done old piece tail n total small h j few o =
    rw
      (
        open_still,
        not_zero (length done) h,
        next_chunk,
        left,
        enough,
        stored,
        with_answer,
        append-nil piece,
      )
      refl
  where
    open_still : (length done == n) ≡ false
    open_still = ground arith

    left : minus n (length done) ≡ length piece
    left = omega arith

    enough : leb (biased (length piece)) (1024 + 32768) ≡ true
    enough = ground arith

    stored :
        store_chunk (length done) (read_block (length piece) 0 (piece ++ tail)) (got done old n)
        ≡ some (record (got done old n) { payload = done ++ (piece ++ []) })
    stored =
        store_chunk-middle done old [] [] piece tail (length piece) 0 (got done old n) refl refl
          (omega arith) o (omega arith) (rw (append-nil old) refl)

pub read_header :
    (n : ℕ) (rest : Bytes) → read_block 2 0 (le_bytes 2 n ++ rest) ≡ some (le_bytes 2 n)
unfolding le_bytes
read_header n rest = read_block-middle [] (le_bytes 2 n) rest (omega arith)

length-resize : (mem : Memory) (n : ℕ) → length (resize mem n []) ≡ n
unfolding resize
length-resize mem n =
    length-take n (strays mem.stray n 0) (omega (arith, length-strays mem.stray n 0))

-- The message when the size is read and the block is there.
abbrev begun : Memory → ℕ → ℕ → Message
begun mem n pos = record { payload = resize mem n []; size = n; io_pos = 0; chunk_pos = pos }

first_chunk-whole :
    (mem : Memory) (piece tail : Bytes)
    → IsRoomy mem
    → length piece ≤ 1022
    → first_chunk mem 1024
        (le_bytes 2 (length piece) ++ (piece ++ tail))
        (record { payload = []; size = length piece; io_pos = 0; chunk_pos = 0 })
      ≡ some
          (length piece, record { payload = piece; size = length piece; io_pos = 0; chunk_pos = 0 })
unfolding first_chunk with_answer
first_chunk-whole mem piece tail roomy few =
    rw (as_size-small n small, roomy n small, enough, stored, with_answer, append-nil piece) refl
  where
    n : ℕ
    n = length piece

    small : n < 32768
    small = omega arith

    enough : leb (biased n) (1024 + 32768) ≡ true
    enough = ground arith

    stored :
        store_chunk 0 (read_block n 2 (le_bytes 2 n ++ (piece ++ tail))) (begun mem n 0)
        ≡ some (record (begun mem n 0) { payload = piece ++ [] })
    stored =
        store_chunk-middle [] (resize mem n []) [] (le_bytes 2 n) piece tail n 2 (begun mem n 0)
          refl (sym (length-le_bytes 2 n)) (omega (arith, length-le_bytes 2 n))
          (length-resize mem n) (omega arith) (sym (append-nil (resize mem n [])))

pub put_chunk-whole :
    (mem : Memory) (piece tail : Bytes)
    → IsRoomy mem
    → length piece ≤ 1022
    → put_chunk mem 1024 (le_bytes 2 (length piece) ++ (piece ++ tail)) reset
      ≡ some
          (length piece, record { payload = piece; size = length piece; io_pos = 0; chunk_pos = 0 })
unfolding put_chunk reset
put_chunk-whole mem piece tail roomy few =
    rw (read_header (length piece) (piece ++ tail), of_le-le_bytes_two (length piece) (omega arith))
      (first_chunk-whole mem piece tail roomy few)

first_chunk-more :
    (mem : Memory) (piece tail : Bytes) (n : ℕ)
    → IsRoomy mem
    → length piece ≡ 1022
    → 1024 < n
    → n < 32768
    → (junk : Bytes) × (length piece + length junk ≡ n)
      × (first_chunk mem 1024
            (le_bytes 2 n ++ (piece ++ tail))
            (record { payload = []; size = n; io_pos = 0; chunk_pos = 0 })
          ≡ some (0, got piece junk n))
unfolding first_chunk with_answer
first_chunk-more mem piece tail n roomy p many small = (
  junk,
  omega (arith, cut, halves, length-append old junk),
  rw (as_size-small n small, roomy n small, too_many, stored, with_answer, p) refl,
)
  where
    block : Bytes
    block = resize mem n []

    old : Bytes
    old = take 1022 block

    junk : Bytes
    junk = drop 1022 block

    cut : length old ≡ 1022
    cut = length-take 1022 block (omega (arith, length-resize mem n))

    halves : length (old ++ junk) ≡ n
    halves = ap length (take-append-drop 1022 block) ∙ length-resize mem n

    too_many : leb (biased n) (1024 + 32768) ≡ false
    too_many = ground arith

    stored :
        store_chunk 0 (read_block 1022 2 (le_bytes 2 n ++ (piece ++ tail))) (begun mem n 1022)
        ≡ some (record (begun mem n 1022) { payload = piece ++ junk })
    stored =
        store_chunk-middle [] old junk (le_bytes 2 n) piece tail 1022 2 (begun mem n 1022) p
          (sym (length-le_bytes 2 n)) (omega (arith, length-le_bytes 2 n)) cut (omega arith)
          (sym (take-append-drop 1022 block))

pub put_chunk-first :
    (mem : Memory) (piece tail : Bytes) (n : ℕ)
    → IsRoomy mem
    → length piece ≡ 1022
    → 1024 < n
    → n < 32768
    → (junk : Bytes) × (length piece + length junk ≡ n)
      × (put_chunk mem 1024 (le_bytes 2 n ++ (piece ++ tail)) reset ≡ some (0, got piece junk n))
unfolding put_chunk reset
put_chunk-first mem piece tail n roomy p many small =
    let (junk, sum, e) = first_chunk-more mem piece tail n roomy p many small in
    (junk, sum, rw (read_header n (piece ++ tail), of_le-le_bytes_two n (omega arith)) e)
