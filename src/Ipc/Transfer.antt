-- ===== src/Ipc/Transfer.antt =====
-- A message through send and recv.
use libcernvm.Prelude.{
  ℕ, suc, ◌+◌, ◌≤◌, ◌<◌, ◌≡◌, ◌⊎◌, inl, inr, refl, sym, ap, ◌∙◌, List, [], ◌∷◌, ◌++◌, some, arith,
  length, take, drop, length-append, append_assoc, take-append-drop,
}
use libcernvm.Prelude.Keys.{Bytes}
use mathlib.Core.Path.{subst}
use libcernvm.Ipc.Words.{le_bytes, Memory}
use libcernvm.Ipc.Message.{Message, reset, rewind}
use libcernvm.Ipc.Chunks.{send, recv}
use libcernvm.Ipc.Blocks.{IsRoomy, take_all, drop_all, length-take, length-le_bytes}
use libcernvm.Ipc.Sending.{
  sent, pieces, portion, length-take-portion, queue_sendto, queue_recvfrom, queue_send_loop,
  get_chunk-first, send_loop-sent, send_loop-pieces,
}
use libcernvm.Ipc.Receiving.{got, put_chunk-first, put_chunk-whole}
use libcernvm.Ipc.Arrival.{Arrives, recv_loop-pieces, recv_loop-more, recv_loop-end, pieces_none}

-- The first datagram of a message.
abbrev opening : ℕ → Bytes → Bytes
opening n piece = le_bytes 2 n ++ piece

send_opening :
    (k : ℕ) (piece left : Bytes)
    → length (piece ++ left) < 32768
    → length piece ≡ portion 1022 (piece ++ left)
    → 0 < length piece
    → length left ≤ k
    → queue_send_loop (suc (suc k)) 0 (sent [] (piece ++ left) 0) []
      ≡ some (
        some (length (piece ++ left) + 2),
        opening (length (piece ++ left)) piece ∷ pieces k left,
      )
send_opening k piece left small p c l =
    let datagram = opening (length (piece ++ left)) piece in
    let long : length datagram ≡ 2 + length piece =
      length-append (le_bytes 2 (length (piece ++ left))) piece
      ∙ ap (λ z. z + length piece) (length-le_bytes 2 (length (piece ++ left))) in
    send_loop-sent (suc k) 0 [] piece left 0 [] datagram (sent [] (piece ++ left) 0) (omega arith)
      (get_chunk-first piece left 0 small p c)
    ∙ send_loop-pieces k (0 + length datagram) piece left 0 (datagram ∷ []) l c small
    ∙ ap (λ t. some (some t, datagram ∷ pieces k left))
        (omega (arith, long, length-append piece left))

send-pieces :
    (m : Message)
    → m.size ≡ length m.payload
    → 0 < m.size
    → m.size < 32768
    → send queue_sendto queue_recvfrom (suc (suc m.size)) m []
      ≡ some (
        some (m.size + 2),
        opening m.size (take 1022 m.payload) ∷ pieces m.size (drop 1022 m.payload),
      )
unfolding send rewind
send-pieces m n c small =
    let piece : Bytes = take 1022 m.payload in
    let left : Bytes = drop 1022 m.payload in
    let whole : piece ++ left ≡ m.payload = take-append-drop 1022 m.payload in
    let sum : length (piece ++ left) ≡ m.size = ap length whole ∙ sym n in
    let p : length piece ≡ portion 1022 (piece ++ left) =
      length-take-portion 1022 m.payload ∙ ap (portion 1022) (sym whole) in
    let some_piece : 0 < length piece = ground arith in
    rw (n) (
      subst
        (λ z.
          queue_send_loop (suc (suc (length z))) 0 (sent [] z 0) []
          ≡ some (some (length z + 2), opening (length z) piece ∷ pieces (length z) left))
        whole
        (send_opening (length (piece ++ left)) piece left (omega arith) p some_piece
          (omega (arith, length-append piece left))))

recv-pieces :
    (mem : Memory) (payload buf : Bytes)
    → IsRoomy mem
    → 0 < length payload
    → length payload < 32768
    → (length payload ≤ 1022) ⊎ (1024 < length payload)
    → Arrives mem
        (suc (length payload))
        buf
        reset
        (opening (length payload) (take 1022 payload) ∷ pieces (length payload) (drop 1022 payload))
        (length payload)
        payload
recv-pieces mem payload buf roomy c small (inl few) = (
  0,
  rw (take_all payload 1022 few, drop_all payload 1022 few, pieces_none n)
      (recv_loop-end mem n buf datagram n reset _ [] (omega (arith, long)) (omega (arith, long)) c
        small
        (rw (append_assoc (le_bytes 2 n) payload tail)
          (put_chunk-whole mem payload tail roomy few))),
)
  where
    n : ℕ
    n = length payload

    datagram : Bytes
    datagram = opening n payload

    tail : Bytes
    tail = drop (length datagram) buf

    long : length datagram ≡ 2 + n
    long = length-append (le_bytes 2 n) payload ∙ ap (λ z. z + n) (length-le_bytes 2 n)
recv-pieces mem payload buf roomy c small (inr many) =
    let (junk, sum, e) = put_chunk-first mem piece tail n roomy p many small in
    let (pos, r) =
      recv_loop-pieces mem n (datagram ++ tail) piece junk left n (omega (arith, p, parts))
        (omega (arith, sum, parts)) (omega (arith, parts)) (omega (arith, parts)) small
        (omega (arith, p)) in
    (
      pos,
      recv_loop-more mem n buf datagram reset (got piece junk n) (pieces n left)
            (omega (arith, long)) (omega (arith, long, p))
            (rw (append_assoc (le_bytes 2 n) piece tail) e)
          ∙ r
          ∙ ap
              (λ z.
                some (some n, record { payload = z; size = n; io_pos = 0; chunk_pos = pos }, []))
              (take-append-drop 1022 payload),
    )
  where
    n : ℕ
    n = length payload

    piece : Bytes
    piece = take 1022 payload

    left : Bytes
    left = drop 1022 payload

    datagram : Bytes
    datagram = opening n piece

    tail : Bytes
    tail = drop (length datagram) buf

    p : length piece ≡ 1022
    p = length-take 1022 payload (omega arith)

    long : length datagram ≡ 2 + length piece
    long = length-append (le_bytes 2 n) piece ∙ ap (λ z. z + length piece) (length-le_bytes 2 n)

    parts : length piece + length left ≡ n
    parts = sym (length-append piece left) ∙ ap length (take-append-drop 1022 payload)

-- What `send` puts on a network that keeps every datagram in order, `recv` takes off as the same
-- bytes, with nothing left over: for a message of 1 to 1022 or of 1025 to 32767 bytes, whatever the
-- buffer held, when the allocator has every block of such a size.
pub recv-send :
    (mem : Memory) (m : Message) (buf : Bytes)
    → IsRoomy mem
    → m.size ≡ length m.payload
    → 0 < m.size
    → m.size < 32768
    → (m.size ≤ 1022) ⊎ (1024 < m.size)
    → (q : List Bytes) × (m' : Message) × (send queue_sendto queue_recvfrom (suc (suc m.size)) m []
        ≡ some (some (m.size + 2), q))
      × (recv queue_sendto queue_recvfrom mem (suc m.size) buf q ≡ some (some m.size, m', []))
      × (m'.payload ≡ m.payload)
      × (m'.size ≡ m.size)
      × (m'.io_pos ≡ 0)
unfolding recv
recv-send mem m buf roomy n c small sizes =
    let q = opening m.size (take 1022 m.payload) ∷ pieces m.size (drop 1022 m.payload) in
    let (pos, r) =
      subst
        (λ z.
          Arrives mem (suc z) buf reset
            (opening z (take 1022 m.payload) ∷ pieces z (drop 1022 m.payload)) z m.payload)
        (sym n)
        (recv-pieces mem m.payload buf roomy (omega arith) (omega arith)
          (subst (λ z. (z ≤ 1022) ⊎ (1024 < z)) n sizes)) in
    (
      q,
      record { payload = m.payload; size = m.size; io_pos = 0; chunk_pos = pos },
      send-pieces m n c small,
      r,
      refl,
      refl,
      refl,
    )
