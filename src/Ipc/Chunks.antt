-- ===== src/Ipc/Chunks.antt =====
-- The datagrams of src/ThinIPC.cpp: getChunk and putChunk, and the loops of send and recv.
use libcernvm.Prelude.{
  ℕ, zero, suc, ◌+◌, ◌-◌, not, ◌&&◌, [], ◌++◌, Option, none, some, if◌then◌else◌, length, take,
  drop, leb, ltb, is_nil, ◌==◌,
}
use libcernvm.Prelude.Keys.{Bytes}
use libcernvm.Ipc.Words.{
  le_bytes, of_le, short, biased, as_size, Memory, resize, read_block, write_block,
}
use libcernvm.Ipc.Message.{Message, reset, rewind}

-- The difference of two shorts, as a short.
abbrev pub minus : ℕ → ℕ → ℕ
minus p q = short (p + 65536 - q)

-- A short cut to a limit, both as ints.
abbrev pub at_most : ℕ → ℕ → ℕ
at_most p limit = if ltb (limit + 32768) (biased p) then limit else p

-- getChunk: the bytes that are put into the buffer; their number is the answer.
unfoldable pub get_chunk : ℕ → Message → Option (Bytes × Message)
get_chunk capacity m =
    let left = minus m.size m.chunk_pos in
    let cp_size = at_most left (if m.chunk_pos == 0 then capacity - 2 else capacity) in
    let header = if m.chunk_pos == 0 then le_bytes 2 m.size else [] in
    if leb (biased m.size) (biased m.chunk_pos)
    then some ([], m)
    else elim (read_block cp_size m.chunk_pos m.payload) [
      | none ↦ none
      | some bs ↦ some (header ++ bs, record m { chunk_pos = short (m.chunk_pos + cp_size) })
    ]

-- memcpy from the buffer to a position of the block.
unfoldable pub store_chunk : ℕ → Option Bytes → Message → Option Message
store_chunk pos none m = none
store_chunk pos (some bs) m = elim (write_block pos bs m.payload) [
  | none ↦ none
  | some block ↦ some (record m { payload = block })
]

unfoldable pub with_answer : ℕ → Option Message → Option (ℕ × Message)
with_answer n none = none
with_answer n (some m) = some (n, m)

-- putChunk with the first chunk, of which the size was read.
unfoldable pub first_chunk : Memory → ℕ → Bytes → Message → Option (ℕ × Message)
first_chunk mem capacity buffer m =
    let m' : Message = record m { payload = resize mem (as_size m.size) [] } in
    if not (mem.alloc (as_size m.size))
    then some (0, record m { payload = [] })
    else if leb (biased m.size) (capacity + 32768)
    then with_answer m.size (store_chunk 0 (read_block m.size 2 buffer) m')
    else with_answer 0 (
        store_chunk 0 (read_block (capacity - 2) 2 buffer) (record m' { chunk_pos = capacity - 2 }))

-- putChunk behind the first chunk.
unfoldable pub next_chunk : ℕ → Bytes → Message → Option (ℕ × Message)
next_chunk capacity buffer m =
    let read_size = minus m.size m.chunk_pos in
    if leb (biased read_size) (capacity + 32768)
    then with_answer m.size (store_chunk m.chunk_pos (read_block read_size 0 buffer) m)
    else with_answer 0 (
        store_chunk m.chunk_pos (read_block capacity 0 buffer)
          (record m { chunk_pos = short (m.chunk_pos + capacity) }))

-- putChunk
unfoldable pub put_chunk : Memory → ℕ → Bytes → Message → Option (ℕ × Message)
put_chunk mem capacity buffer m =
    if m.chunk_pos == m.size && not (m.chunk_pos == 0)
    then some (0, m)
    else if m.chunk_pos == 0
    then (elim (read_block 2 0 buffer) [
      | none ↦ none
      | some bs ↦ first_chunk mem capacity buffer (record m { size = of_le bs })
    ])
    else next_chunk capacity buffer m

-- The network: sendto gives the number of bytes sent and recvfrom a datagram, both `none` for an error.
module _ {W : Type 0} (sendto : Bytes → W → Option ℕ × W) (recvfrom : W → Option Bytes × W) where
  -- The loop of send, on fuel: the outer `none` is an access outside a block or the end of the fuel,
  -- the inner one the error of sendto.
  unfoldable pub send_loop : ℕ → ℕ → Message → W → Option (Option ℕ × W)
  send_loop zero total m w = none
  send_loop (suc fuel) total m w = elim (get_chunk 1024 m) [
    | none ↦ none
    | some (bs, m') ↦
        if is_nil bs
        then some (some total, w)
        else (let (len, w') = sendto bs w in
            elim len [
              | none ↦ some (none, w')
              | some n ↦ elim n [
                | zero ↦ some (some 0, w')
                | suc k ↦ send_loop fuel (total + suc k) m' w'
              ]
            ])
  ]

  unfoldable pub send : ℕ → Message → W → Option (Option ℕ × W)
  send fuel m w = send_loop fuel 0 (rewind m) w

  -- The loop of recv; `buf` is the array on the stack, which a shorter datagram fills in part.
  unfoldable pub recv_loop : Memory → ℕ → Bytes → Message → W → Option (Option ℕ × Message × W)
  recv_loop mem zero buf m w = none
  recv_loop mem (suc fuel) buf m w =
      let (datagram, w') = recvfrom w in
      elim datagram [
        | none ↦ some (none, m, w')
        | some bytes ↦
            let buf' = take 1024 bytes ++ drop (length (take 1024 bytes)) buf in
            if is_nil bytes then some (some 0, m, w') else elim (put_chunk mem 1024 buf' m) [
              | none ↦ none
              | some (n, m') ↦
                  (let rest = recv_loop mem fuel buf' m' w' in
                    if ltb 32768 (biased n) then some (some n, m', w') else rest)
            ]
      ]

  unfoldable pub recv : Memory → ℕ → Bytes → W → Option (Option ℕ × Message × W)
  recv mem fuel buf w = recv_loop mem fuel buf reset w
