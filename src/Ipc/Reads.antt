-- ===== src/Ipc/Reads.antt =====
-- What each read of src/ThinIPC.cpp finds in a message.
use libcernvm.Prelude.{
  ℕ, ◌+◌, ◌<◌, ◌≡◌, refl, sym, false, ◌++◌, none, some, arith, length, ltb, length-append,
  append_assoc,
}
use libcernvm.Prelude.Keys.{Bytes}
use libcernvm.Ipc.Words.{le_bytes, short, biased, Memory, read_block}
use libcernvm.Ipc.Message.{Message, read_int, read_short, read_text, read_string}
use libcernvm.Ipc.Blocks.{
  IsRoomy, as_size-small, between, length-le_bytes, of_le-le_bytes_four, of_le-le_bytes_two,
  read_block-middle,
}
use libcernvm.Ipc.Writes.{text_bytes}

-- The checks that a read makes, and what it finds, in front of some bytes.
pub not_at_end :
    (done bytes rest : Bytes) (n : ℕ)
    → length bytes ≡ n
    → length (done ++ (bytes ++ rest)) < 32768
    → ltb (biased (length (done ++ (bytes ++ rest)))) (biased (length done) + n) ≡ false
not_at_end done bytes rest n k h =
    ground (arith, length-append done (bytes ++ rest), length-append bytes rest)

pub read_block-here :
    (done bytes rest : Bytes) (n : ℕ)
    → length bytes ≡ n
    → length (done ++ (bytes ++ rest)) < 32768
    → read_block n (length done) (done ++ (bytes ++ rest)) ≡ some bytes
read_block-here done bytes rest n k h = rw (sym k) (
    read_block-middle done bytes rest
      (omega (arith, length-append done (bytes ++ rest), length-append bytes rest)))

pub passed :
    (done bytes rest : Bytes) (n : ℕ)
    → length bytes ≡ n
    → length (done ++ (bytes ++ rest)) < 32768
    → ◌≡◌ {A = Message}
        (record {
          payload = done ++ (bytes ++ rest);
          size = length (done ++ (bytes ++ rest));
          io_pos = short (length done + n);
          chunk_pos = 0;
        })
        (between (done ++ bytes) rest)
passed done bytes rest n k h =
    let here : short (length done + n) ≡ length (done ++ bytes) = omega (
      arith,
      length-append done bytes,
      length-append done (bytes ++ rest),
      length-append bytes rest,
    ) in
    rw (here, append_assoc done bytes rest) refl

pub read_int-between :
    (v : ℕ) (done rest : Bytes)
    → v < 4294967296
    → length (done ++ (le_bytes 4 v ++ rest)) < 32768
    → read_int 4 (between done (le_bytes 4 v ++ rest))
      ≡ some (v, between (done ++ le_bytes 4 v) rest)
unfolding read_int
read_int-between v done rest u h =
    let bytes = le_bytes 4 v in
    let k = length-le_bytes 4 v in
    rw
      (
        not_at_end done bytes rest 4 k h,
        read_block-here done bytes rest 4 k h,
        of_le-le_bytes_four v u,
        passed done bytes rest 4 k h,
      )
      refl

pub read_short-between :
    (v : ℕ) (done rest : Bytes)
    → v < 65536
    → length (done ++ (le_bytes 2 v ++ rest)) < 32768
    → read_short (between done (le_bytes 2 v ++ rest))
      ≡ some (v, between (done ++ le_bytes 2 v) rest)
unfolding read_short
read_short-between v done rest u h =
    let bytes = le_bytes 2 v in
    let k = length-le_bytes 2 v in
    rw
      (
        not_at_end done bytes rest 2 k h,
        read_block-here done bytes rest 2 k h,
        of_le-le_bytes_two v u,
        passed done bytes rest 2 k h,
      )
      refl

pub read_text-between :
    (mem : Memory) (v done rest : Bytes)
    → IsRoomy mem
    → length (done ++ (v ++ rest)) < 32768
    → read_text mem (length v) (between done (v ++ rest)) ≡ some (v, between (done ++ v) rest)
unfolding read_text
read_text-between mem v done rest roomy h =
    rw
      (
        within,
        as_size-small (length v) short_enough,
        roomy (length v) short_enough,
        read_block-here done v rest (length v) refl h,
        passed done v rest (length v) refl h,
      )
      refl
  where
    sum : length (done ++ (v ++ rest)) ≡ length done + (length v + length rest)
    sum = omega (arith, length-append done (v ++ rest), length-append v rest)

    short_enough : length v < 32768
    short_enough = omega (arith, sum)

    within :
        ltb
          (biased (length (done ++ (v ++ rest))) + 32768)
          (biased (length done) + biased (length v))
        ≡ false
    within = ground (arith, sum)

pub read_string-between :
    (mem : Memory) (v done rest : Bytes)
    → IsRoomy mem
    → length (done ++ (text_bytes v ++ rest)) < 32768
    → read_string mem (between done (text_bytes v ++ rest))
      ≡ some (v, between (done ++ text_bytes v) rest)
unfolding read_string
read_string-between mem v done rest roomy h =
    rw
      (
        append_assoc head v rest,
        not_at_end done head (v ++ rest) 2 k whole,
        read_block-here done head (v ++ rest) 2 k whole,
        of_le-le_bytes_two (length v) short_enough,
        append_assoc head v rest,
        passed done head (v ++ rest) 2 k whole,
        read_text-between mem v (done ++ head) rest roomy behind,
        append_assoc done head v,
      )
      refl
  where
    head : Bytes
    head = le_bytes 2 (length v)

    k : length head ≡ 2
    k = length-le_bytes 2 (length v)

    whole : length (done ++ (head ++ (v ++ rest))) < 32768
    whole = rw (sym (append_assoc head v rest)) h

    behind : length ((done ++ head) ++ (v ++ rest)) < 32768
    behind = rw (append_assoc done head (v ++ rest)) whole

    short_enough : length v < 65536
    short_enough =
        omega (arith, behind, length-append (done ++ head) (v ++ rest), length-append v rest)

-- With a `long int` of eight bytes, reading the int at the end of a message copies from outside the
-- block, whatever the message and the int.
pub read_int-last :
    (v : ℕ) (done : Bytes)
    → length (done ++ le_bytes 4 v) < 32768
    → read_int 8 (between done (le_bytes 4 v)) ≡ none
unfolding read_int read_block
read_int-last v done h = ground (arith, length-append done (le_bytes 4 v), length-le_bytes 4 v)
