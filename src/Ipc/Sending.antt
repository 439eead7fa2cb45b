-- ===== src/Ipc/Sending.antt =====
-- The datagrams that the loop of send makes of a message.
use libcernvm.Prelude.{
  ℕ, zero, suc, ◌+◌, ◌≤◌, ◌<◌, ◌≡◌, refl, sym, ap, ◌∙◌, false, List, [], ◌∷◌, ◌++◌, Option, none,
  some, arith, if◌then◌else◌, length, take, drop, leb, ltb, length-append, append_assoc, append-nil,
  take-append-drop, ◌==◌,
}
use libcernvm.Prelude.Keys.{Bytes}
use libcernvm.Ipc.Words.{le_bytes, short, biased}
use libcernvm.Ipc.Message.{Message}
use libcernvm.Ipc.Chunks.{minus, at_most, get_chunk, send_loop}
use libcernvm.Ipc.Reads.{read_block-here}

-- A network that keeps every datagram, in order.
abbrev pub queue_sendto : Bytes → List Bytes → Option ℕ × List Bytes
queue_sendto datagram queue = (some (length datagram), queue ++ datagram ∷ [])

abbrev pub queue_recvfrom : List Bytes → Option Bytes × List Bytes
queue_recvfrom [] = (none, [])
queue_recvfrom (datagram ∷ queue) = (some datagram, queue)

-- The datagrams behind the first.
unfoldable pub pieces : ℕ → Bytes → List Bytes
pieces zero rest = []
pieces (suc k) [] = []
pieces (suc k) (c ∷ rest) = take 1024 (c ∷ rest) ∷ pieces k (drop 1024 (c ∷ rest))

-- A message of which some bytes are sent.
abbrev pub sent : Bytes → Bytes → ℕ → Message
sent done rest io = record {
  payload = done ++ rest;
  size = length (done ++ rest);
  io_pos = io;
  chunk_pos = length done;
}

get_chunk-done :
    (done : Bytes) (io : ℕ)
    → length done < 32768
    → get_chunk 1024 (sent done [] io) ≡ some ([], sent done [] io)
unfolding get_chunk
get_chunk-done done io h = ground (arith, length-append done [])

-- How much of some bytes a datagram with a limit takes.
abbrev pub portion : ℕ → Bytes → ℕ
portion limit rest = if ltb limit (length rest) then limit else length rest

pub minus-append :
    (done rest : Bytes)
    → length (done ++ rest) < 32768
    → minus (length (done ++ rest)) (length done) ≡ length rest
minus-append done rest h = omega (arith, length-append done rest)

at_most-small :
    (n limit : ℕ) → n < 32768 → limit ≤ 1024 → at_most n limit ≡ (if ltb limit n then limit else n)
at_most-small n limit h l = ground arith

pub not_zero : (n : ℕ) → 0 < n → (n == 0) ≡ false
not_zero n h = ground arith

some_left :
    (done rest : Bytes)
    → 0 < length rest
    → length (done ++ rest) < 32768
    → leb (biased (length (done ++ rest))) (biased (length done)) ≡ false
some_left done rest h small = ground (arith, length-append done rest)

some_piece : (piece rest : Bytes) → 0 < length piece → 0 < length (piece ++ rest)
some_piece piece rest h = omega (arith, length-append piece rest)

pub suffix_small : (done rest : Bytes) → length (done ++ rest) < 32768 → length rest < 32768
suffix_small done rest h = omega (arith, length-append done rest)

moved :
    (done piece rest : Bytes)
    → length (done ++ (piece ++ rest)) < 32768
    → short (length done + length piece) ≡ length (done ++ piece)
moved done piece rest h =
    omega (
      arith,
      length-append done (piece ++ rest),
      length-append piece rest,
      length-append done piece,
    )

pub get_chunk-sent :
    (done piece rest : Bytes) (io : ℕ)
    → 0 < length done
    → length (done ++ (piece ++ rest)) < 32768
    → length piece ≡ portion 1024 (piece ++ rest)
    → 0 < length piece
    → get_chunk 1024 (sent done (piece ++ rest) io) ≡ some (piece, sent (done ++ piece) rest io)
unfolding get_chunk
get_chunk-sent done piece rest io h small p c =
    let nz = not_zero (length done) h in
    let left = minus-append done (piece ++ rest) small in
    let cut =
      at_most-small (length (piece ++ rest)) 1024 (suffix_small done (piece ++ rest) small)
        (omega arith) in
    rw
      (
        some_left done (piece ++ rest) (some_piece piece rest c) small,
        nz,
        left,
        cut,
        sym p,
        read_block-here done piece rest (length piece) refl small,
        nz,
        left,
        cut,
        sym p,
        moved done piece rest small,
        append_assoc done piece rest,
      )
      refl

pub get_chunk-first :
    (piece rest : Bytes) (io : ℕ)
    → length (piece ++ rest) < 32768
    → length piece ≡ portion 1022 (piece ++ rest)
    → 0 < length piece
    → get_chunk 1024 (sent [] (piece ++ rest) io)
      ≡ some (le_bytes 2 (length (piece ++ rest)) ++ piece, sent piece rest io)
unfolding get_chunk
get_chunk-first piece rest io small p c =
    let left = minus-append [] (piece ++ rest) small in
    let cut = at_most-small (length (piece ++ rest)) 1022 small (omega arith) in
    rw
      (
        some_left [] (piece ++ rest) (some_piece piece rest c) small,
        left,
        cut,
        sym p,
        read_block-here [] piece rest (length piece) refl small,
        left,
        cut,
        sym p,
        moved [] piece rest small,
      )
      refl

abbrev pub queue_send_loop : ℕ → ℕ → Message → List Bytes → Option (Option ℕ × List Bytes)
queue_send_loop = send_loop queue_sendto queue_recvfrom

pub send_loop-sent :
    (k total : ℕ) (done piece rest : Bytes) (io : ℕ) (q : List Bytes) (datagram : Bytes)
    (m : Message)
    → 0 < length datagram
    → get_chunk 1024 m ≡ some (datagram, sent (done ++ piece) rest io)
    → queue_send_loop (suc k) total m q
      ≡ queue_send_loop k
          (total + length datagram)
          (sent (done ++ piece) rest io)
          (q ++ datagram ∷ [])
unfolding send_loop
send_loop-sent k total done piece rest io q [] m c e = absurd (omega arith)
send_loop-sent k total done piece rest io q (b ∷ datagram) m c e = rw (e, send_loop) refl

pub length-take-portion : (limit : ℕ) (xs : Bytes) → length (take limit xs) ≡ portion limit xs
length-take-portion zero [] = refl
length-take-portion zero (x ∷ xs) = ground arith
length-take-portion (suc n) [] = ground arith
length-take-portion (suc n) (x ∷ xs) = ground (arith, length-take-portion n xs)

send_loop-done :
    (k total : ℕ) (done : Bytes) (io : ℕ) (q : List Bytes)
    → length (done ++ []) < 32768
    → queue_send_loop (suc k) total (sent done [] io) q ≡ some (some (total + 0), q ++ [])
unfolding send_loop
send_loop-done k total done io q h =
    rw (get_chunk-done done io (omega (arith, length-append done [])), send_loop, append-nil q)
      (ap (λ t. some (some t, q)) (omega arith))

send_loop-more :
    (k total : ℕ) (done piece rest : Bytes) (io : ℕ) (q : List Bytes)
    → 0 < length done
    → length (done ++ (piece ++ rest)) < 32768
    → length piece ≡ portion 1024 (piece ++ rest)
    → 0 < length piece
    → queue_send_loop
        (suc k)
        (total + length piece)
        (sent (done ++ piece) rest io)
        (q ++ piece ∷ [])
      ≡ some (some (total + length piece + length rest), (q ++ piece ∷ []) ++ pieces k rest)
    → queue_send_loop (suc (suc k)) total (sent done (piece ++ rest) io) q
      ≡ some (some (total + length (piece ++ rest)), q ++ (piece ∷ pieces k rest))
send_loop-more k total done piece rest io q h small p c later =
    send_loop-sent (suc k) total done piece rest io q piece _ c
      (get_chunk-sent done piece rest io h small p c)
    ∙ later
    ∙ rw (append_assoc q (piece ∷ []) (pieces k rest)) (
        ap (λ t. some (some t, q ++ (piece ∷ pieces k rest)))
          (omega (arith, length-append piece rest)))

pub send_loop-pieces :
    (k total : ℕ) (done rest : Bytes) (io : ℕ) (q : List Bytes)
    → length rest ≤ k
    → 0 < length done
    → length (done ++ rest) < 32768
    → queue_send_loop (suc k) total (sent done rest io) q
      ≡ some (some (total + length rest), q ++ pieces k rest)
unfolding pieces
send_loop-pieces zero total done [] io q l h small = send_loop-done zero total done io q small
send_loop-pieces zero total done (c ∷ rest) io q l h small = absurd (omega arith)
send_loop-pieces (suc k) total done [] io q l h small = send_loop-done (suc k) total done io q small
send_loop-pieces (suc k) total done (c ∷ rest) io q l h small =
    let piece : Bytes = take 1024 (c ∷ rest) in
    let left : Bytes = drop 1024 (c ∷ rest) in
    let whole : piece ++ left ≡ c ∷ rest = take-append-drop 1024 (c ∷ rest) in
    let small' : length (done ++ (piece ++ left)) < 32768 = rw (whole) small in
    let p : length piece ≡ portion 1024 (piece ++ left) =
      length-take-portion 1024 (c ∷ rest) ∙ ap (portion 1024) (sym whole) in
    let shorter : length left ≤ k = omega (arith, length-append piece left, ap length whole) in
    let later =
      send_loop-pieces k (total + length piece) (done ++ piece) left io (q ++ piece ∷ []) shorter
        (omega (arith, length-append done piece)) (rw (append_assoc done piece left) small') in
    ap (λ z. queue_send_loop (suc (suc k)) total (sent done z io) q) (sym whole)
    ∙ send_loop-more k total done piece left io q h small' p (omega arith) later
    ∙ ap (λ z. some (some (total + length z), q ++ (piece ∷ pieces k left))) whole
