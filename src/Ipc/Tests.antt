-- ===== src/Ipc/Tests.antt =====
-- Messages at work.
use libcernvm.Prelude.Texts.{codes}
use libcernvm.Prelude.{ℕ, ◌≡◌, refl, true, false, List, [], ◌∷◌, some, arith, inr, replicate, map}
use libcernvm.Prelude.Keys.{Bytes}
use libcernvm.Ipc.Words.{Memory, le_bytes, write_block, resize, strays}
use libcernvm.Ipc.Message
use libcernvm.Ipc.Message.{
  Message, reset, rewind, grow, put_bytes, put_text, write_int, write_short, write_string, read_int,
  message_is,
}
use libcernvm.Ipc.Chunks.{send, recv}
use libcernvm.Ipc.Sending.{queue_sendto, queue_recvfrom}
use libcernvm.Ipc.Transfer.{recv-send}
use libcernvm.Ipc.RoundTrip.{
  Field, int_field, short_field, string_field, kind_of, write_fields, read_fields,
  read_fields-write_fields,
}

-- An allocator with everything, and one with nothing.
abbrev ample : Memory
ample = record { alloc = λ n. true; stray = λ n. 170 }

abbrev exhausted : Memory
exhausted = record { alloc = λ n. false; stray = λ n. 0 }

abbrev hello : Bytes
hello = codes "hi"

abbrev request : List Field
request = int_field 300 ∷ string_field hello ∷ short_field 7 ∷ []

shorthand :
    message_is ample 300 hello
    ≡ some (record {
      payload = 44 ∷ 1 ∷ 0 ∷ 0 ∷ 2 ∷ 0 ∷ codes "hi";
      size = 8;
      io_pos = 8;
      chunk_pos = 0;
    })
unfolding message_is Message.then_string write_int write_string grow put_bytes put_text reset
    write_block resize strays le_bytes
shorthand = refl

read_fields-write_fields_example :
    (m : Message) × (m' : Message) × (write_fields ample request reset ≡ some m)
    × (read_fields ample (map kind_of request) (rewind m) ≡ some (request, m'))
    × (m'.io_pos ≡ m.size)
read_fields-write_fields_example =
    read_fields-write_fields ample request (λ n h. refl) (omega arith, (tt, (omega arith, tt)))
      (unfold le_bytes in omega arith)

abbrev half_full : Message
half_full = record { payload = 1 ∷ 2 ∷ []; size = 2; io_pos = 2; chunk_pos = 0 }

-- A message of two datagrams, and one that is as long as the buffer.
abbrev filled : ℕ → Message
filled n = record { payload = replicate n 7; size = n; io_pos = 0; chunk_pos = 0 }

recv-send_example :
    (q : List Bytes) × (m' : Message) × (send queue_sendto queue_recvfrom 1102 (filled 1100) []
      ≡ some (some 1102, q))
    × (recv queue_sendto queue_recvfrom ample 1101 [] q ≡ some (some 1100, m', []))
    × (m'.payload ≡ replicate 1100 7)
    × (m'.size ≡ 1100)
    × (m'.io_pos ≡ 0)
recv-send_example =
    recv-send ample (filled 1100) [] (λ n h. refl) refl (omega arith) (omega arith)
      (inr (omega arith))
