-- ===== src/Ipc/Arrival.antt =====
-- What the loop of recv makes of the datagrams of a message.
use libcernvm.Prelude.{
  ℕ, zero, suc, ◌+◌, ◌≤◌, ◌<◌, ◌≡◌, inl, inr, refl, sym, ap, ◌∙◌, true, false, List, [], ◌∷◌, ◌++◌,
  Option, some, arith, length, take, drop, leb, ltb, leb→le, is_nil, length-append, append_assoc,
  take-append-drop, Bool-cases,
}
use libcernvm.Prelude.Keys.{Bytes}
use mathlib.Core.Path.{subst}
use libcernvm.Ipc.Words.{biased, Memory}
use libcernvm.Ipc.Message.{Message}
use libcernvm.Ipc.Chunks.{put_chunk, recv_loop}
use libcernvm.Ipc.Blocks.{take_all, drop_all, length-take}
use libcernvm.Ipc.Sending.{pieces, queue_sendto, queue_recvfrom}
use libcernvm.Ipc.Receiving.{got, put_chunk-next, put_chunk-last}

abbrev pub queue_recv_loop :
    Memory → ℕ → Bytes → Message → List Bytes → Option (Option ℕ × Message × List Bytes)
queue_recv_loop = recv_loop queue_sendto queue_recvfrom

not_nil : (xs : Bytes) → 0 < length xs → is_nil xs ≡ false
not_nil [] h = absurd (omega arith)
not_nil (x ∷ xs) h = refl

pub recv_loop-more :
    (mem : Memory) (k : ℕ) (buf datagram : Bytes) (m m' : Message) (q : List Bytes)
    → 0 < length datagram
    → length datagram ≤ 1024
    → put_chunk mem 1024 (datagram ++ drop (length datagram) buf) m ≡ some (0, m')
    → queue_recv_loop mem (suc k) buf m (datagram ∷ q)
      ≡ queue_recv_loop mem k (datagram ++ drop (length datagram) buf) m' q
unfolding recv_loop
recv_loop-more mem k buf datagram m m' q c few e =
    let all = take_all datagram 1024 few in
    rw (not_nil datagram c, recv_loop, all, e, recv_loop, all) refl

pub recv_loop-end :
    (mem : Memory) (k : ℕ) (buf datagram : Bytes) (n : ℕ) (m m' : Message) (q : List Bytes)
    → 0 < length datagram
    → length datagram ≤ 1024
    → 0 < n
    → n < 32768
    → put_chunk mem 1024 (datagram ++ drop (length datagram) buf) m ≡ some (n, m')
    → queue_recv_loop mem (suc k) buf m (datagram ∷ q) ≡ some (some n, m', q)
unfolding recv_loop
recv_loop-end mem k buf datagram n m m' q c few h small e =
    let positive : ltb 32768 (biased n) ≡ true = ground arith in
    rw (not_nil datagram c, recv_loop, take_all datagram 1024 few, e, positive) refl

pub pieces_none : (k : ℕ) → pieces k [] ≡ []
unfolding pieces
pieces_none zero = refl
pieces_none (suc k) = refl

pieces_few :
    (k : ℕ) (rest : Bytes) → 0 < length rest → length rest ≤ 1024 → pieces (suc k) rest ≡ rest ∷ []
unfolding pieces
pieces_few k [] c few = absurd (omega arith)
pieces_few k (x ∷ rest) c few =
    rw (take_all rest 1023 (omega arith), drop_all rest 1023 (omega arith))
      (ap (λ ps. (x ∷ rest) ∷ ps) (pieces_none k))

-- Where a message is when its last bytes have come.
abbrev pub Arrives : Memory → ℕ → Bytes → Message → List Bytes → ℕ → Bytes → Type 0
Arrives mem k buf m q n whole =
    (c : ℕ) × (queue_recv_loop mem k buf m q
      ≡ some (some n, record { payload = whole; size = n; io_pos = 0; chunk_pos = c }, []))

Arrives-last :
    (mem : Memory) (k : ℕ) (buf done junk rest : Bytes) (n : ℕ)
    → 0 < length rest
    → length rest ≤ 1024
    → length junk ≡ length rest
    → n ≡ length done + length rest
    → n < 32768
    → 0 < length done
    → Arrives mem (suc k) buf (got done junk n) (pieces (suc k) rest) n (done ++ rest)
Arrives-last mem k buf done junk rest n c few j total small h = (
  length done,
  ap (queue_recv_loop mem (suc k) buf (got done junk n)) (pieces_few k rest c few)
      ∙ recv_loop-end mem k buf rest n (got done junk n) _ [] c few (omega arith) small
          (put_chunk-last mem done junk rest (drop (length rest) buf) n total small h c few j),
)

Arrives-next :
    (mem : Memory) (k : ℕ) (buf done old junk piece left : Bytes) (n : ℕ)
    → length piece ≡ 1024
    → length old ≡ 1024
    → 0 < length junk
    → n ≡ length done + (1024 + length junk)
    → n < 32768
    → 0 < length done
    → Arrives mem k
        (piece ++ drop (length piece) buf)
        (got (done ++ piece) junk n)
        (pieces k left)
        n
        ((done ++ piece) ++ left)
    → Arrives mem
        (suc k)
        buf
        (got done (old ++ junk) n)
        (piece ∷ pieces k left)
        n
        (done ++ (piece ++ left))
Arrives-next mem k buf done old junk piece left n p o j total small h (c, e) = (
  c,
  recv_loop-more mem k buf piece (got done (old ++ junk) n) (got (done ++ piece) junk n)
        (pieces k left) (omega arith) (omega arith)
        (put_chunk-next mem done old junk piece (drop (length piece) buf) n total small h j o p)
      ∙ e
      ∙ ap (λ z. some (some n, record { payload = z; size = n; io_pos = 0; chunk_pos = c }, []))
          (append_assoc done piece left),
)

pub recv_loop-pieces :
    (mem : Memory) (k : ℕ) (buf done junk rest : Bytes) (n : ℕ)
    → 0 < length rest
    → length junk ≡ length rest
    → length rest ≤ k
    → n ≡ length done + length rest
    → n < 32768
    → 0 < length done
    → Arrives mem k buf (got done junk n) (pieces k rest) n (done ++ rest)
unfolding pieces
recv_loop-pieces mem k buf done junk [] n c j l total small h = absurd (omega arith)
recv_loop-pieces mem zero buf done junk (x ∷ rest) n c j l total small h = absurd (omega arith)
recv_loop-pieces mem (suc k) buf done junk (x ∷ rest) n c j l total small h =
    let piece : Bytes = take 1024 (x ∷ rest) in
    let left : Bytes = drop 1024 (x ∷ rest) in
    let old : Bytes = take 1024 junk in
    let junk' : Bytes = drop 1024 junk in
    elim (Bool-cases (leb (length (x ∷ rest)) 1024)) [
      | inl few ↦
          Arrives-last mem k buf done junk (x ∷ rest) n c (leb→le (length (x ∷ rest)) 1024 few) j
            total small h
      | inr many ↦
          (let above : 1024 < length (x ∷ rest) = ground arith in
            let p : length piece ≡ 1024 = length-take 1024 (x ∷ rest) (omega arith) in
            let o : length old ≡ 1024 = length-take 1024 junk (omega arith) in
            let whole : piece ++ left ≡ x ∷ rest = take-append-drop 1024 (x ∷ rest) in
            let halves : old ++ junk' ≡ junk = take-append-drop 1024 junk in
            let l' : length piece + length left ≡ length (x ∷ rest) =
              sym (length-append piece left) ∙ ap length whole in
            let j' : length old + length junk' ≡ length junk =
              sym (length-append old junk') ∙ ap length halves in
            let later =
              recv_loop-pieces mem k (piece ++ drop (length piece) buf) (done ++ piece) junk' left n
                (omega arith) (omega arith) (omega arith) (omega (arith, length-append done piece))
                small (omega (arith, length-append done piece)) in
            subst
              (λ z.
                Arrives mem (suc k) buf (got done z n) (pieces (suc k) (x ∷ rest)) n
                  (done ++ (x ∷ rest)))
              halves
              (subst
                (λ z.
                  Arrives mem (suc k) buf (got done (old ++ junk') n) (pieces (suc k) (x ∷ rest)) n
                    (done ++ z))
                whole
                (Arrives-next mem k buf done old junk' piece left n p o (omega arith) (omega arith)
                  small h later)))
    ]
