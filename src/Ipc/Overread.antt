-- ===== src/Ipc/Overread.antt =====
-- Messages whose size is above what the first datagram carries, but not above its capacity.
use mathlib.Core.Path.{subst}
use libcernvm.Prelude.{
  ℕ, ◌+◌, ◌≤◌, ◌<◌, ◌≡◌, refl, sym, ap, ◌∙◌, true, [], ◌++◌, none, some, arith, length, take, drop,
  leb, length-append, take-append-drop,
}
use libcernvm.Prelude.Keys.{Bytes}
use libcernvm.Ipc.Words.{le_bytes, biased, Memory, read_block}
use libcernvm.Ipc.Message.{Message, reset, rewind}
use libcernvm.Ipc.Chunks.{get_chunk, put_chunk, first_chunk, store_chunk, with_answer}
use libcernvm.Ipc.Blocks.{IsRoomy, as_size-small, length-le_bytes, of_le-le_bytes_two, length-take}
use libcernvm.Ipc.Sending.{sent, portion, length-take-portion, get_chunk-first}
use libcernvm.Ipc.Receiving.{read_header}

first_chunk-over :
    (mem : Memory) (piece : Bytes) (n : ℕ)
    → IsRoomy mem
    → length piece ≡ 1022
    → 1022 < n
    → n ≤ 1024
    → first_chunk mem 1024
        (le_bytes 2 n ++ piece)
        (record { payload = []; size = n; io_pos = 0; chunk_pos = 0 })
      ≡ none
unfolding first_chunk with_answer store_chunk
first_chunk-over mem piece n roomy p above few =
    rw (as_size-small n small, roomy n small, complete, outside) refl
  where
    small : n < 32768
    small = omega arith

    complete : leb (biased n) (1024 + 32768) ≡ true
    complete = ground arith

    outside : read_block n 2 (le_bytes 2 n ++ piece) ≡ none
    outside =
        unfold read_block in ground (arith, length-append (le_bytes 2 n) piece, length-le_bytes 2 n)

put_chunk-over :
    (mem : Memory) (piece : Bytes) (n : ℕ)
    → IsRoomy mem
    → length piece ≡ 1022
    → 1022 < n
    → n ≤ 1024
    → put_chunk mem 1024 (le_bytes 2 n ++ piece) reset ≡ none
unfolding put_chunk reset
put_chunk-over mem piece n roomy p above few =
    rw (read_header n piece, of_le-le_bytes_two n (omega arith))
      (first_chunk-over mem piece n roomy p above few)

-- For a message of 1023 or 1024 bytes getChunk fills the first datagram, of 1024 bytes, and leaves
-- one or two bytes to a second; but putChunk on the first datagram copies from outside its buffer.
pub put_chunk-get_chunk_over :
    (mem : Memory) (m : Message)
    → IsRoomy mem
    → m.size ≡ length m.payload
    → 1022 < m.size
    → m.size ≤ 1024
    → (datagram : Bytes) × (m' : Message) × (get_chunk 1024 (rewind m) ≡ some (datagram, m'))
      × (length datagram ≡ 1024)
      × (m'.chunk_pos ≡ 1022)
      × (put_chunk mem 1024 datagram reset ≡ none)
unfolding rewind
put_chunk-get_chunk_over mem m roomy n above few = (
  le_bytes 2 m.size ++ piece,
  sent piece left 0,
  rw (n) filled,
  length-append (le_bytes 2 m.size) piece ∙ omega (arith, p, length-le_bytes 2 m.size),
  p,
  put_chunk-over mem piece m.size roomy p above few,
)
  where
    piece : Bytes
    piece = take 1022 m.payload

    left : Bytes
    left = drop 1022 m.payload

    p : length piece ≡ 1022
    p = length-take 1022 m.payload (omega arith)

    whole : piece ++ left ≡ m.payload
    whole = take-append-drop 1022 m.payload

    within : length piece ≡ portion 1022 (piece ++ left)
    within = length-take-portion 1022 m.payload ∙ ap (portion 1022) (sym whole)

    filled :
        get_chunk 1024 (sent [] m.payload 0)
        ≡ some (le_bytes 2 (length m.payload) ++ piece, sent piece left 0)
    filled =
        subst
          (λ z.
            get_chunk 1024 (sent [] z 0) ≡ some (le_bytes 2 (length z) ++ piece, sent piece left 0))
          whole
          (get_chunk-first piece left 0 (omega (arith, ap length whole)) within (omega (arith, p)))
