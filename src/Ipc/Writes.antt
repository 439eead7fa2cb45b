-- ===== src/Ipc/Writes.antt =====
-- What each write of src/ThinIPC.cpp leaves in a message.
use libcernvm.Prelude.{
  ℕ, zero, suc, ◌+◌, ◌%◌, ◌<◌, ◌≡◌, refl, sym, ap, ◌∙◌, false, [], ◌∷◌, ◌++◌, Option, some, arith,
  length, take, drop, length-append, append_assoc, append-nil, take-append-drop, lt→ltb,
}
use libcernvm.Prelude.Keys.{Bytes}
use libcernvm.Ipc.Words.{le_bytes, short, Memory}
use libcernvm.Ipc.Message.{Message, grow, put_bytes, put_text, write_int, write_short, write_string}
use libcernvm.Ipc.Blocks.{
  IsRoomy, full, grow-full, length-le_bytes, length-take, short-small, take_all, write_block-middle,
}

pub put_bytes-middle :
    (pre old rest bytes : Bytes) (n : ℕ)
    → length old ≡ length bytes
    → length pre + length bytes < 32768
    → put_bytes bytes
        (record { payload = pre ++ (old ++ rest); size = n; io_pos = length pre; chunk_pos = 0 })
      ≡ some (record {
        payload = pre ++ (bytes ++ rest);
        size = n;
        io_pos = length pre + length bytes;
        chunk_pos = 0;
      })
unfolding put_bytes
put_bytes-middle pre old rest bytes n h small =
    rw
      (
        write_block-middle pre old rest bytes h (omega arith),
        put_bytes,
        short-small (length pre + length bytes) small,
      )
      refl

pub put_bytes-last :
    (pre old bytes : Bytes) (n : ℕ)
    → length old ≡ n
    → length bytes ≡ n
    → length pre + n < 32768
    → put_bytes bytes
        (record { payload = pre ++ old; size = length pre + n; io_pos = length pre; chunk_pos = 0 })
      ≡ some (full (pre ++ bytes))
put_bytes-last pre old bytes n h k small =
    ap (put_bytes bytes) before
    ∙ put_bytes-middle pre old [] bytes (length pre + n) (h ∙ sym k) (omega arith)
    ∙ ap some after
  where
    before :
        ◌≡◌ {A = Message}
          (record {
            payload = pre ++ old;
            size = length pre + n;
            io_pos = length pre;
            chunk_pos = 0;
          })
          (record {
            payload = pre ++ (old ++ []);
            size = length pre + n;
            io_pos = length pre;
            chunk_pos = 0;
          })
    before = rw (append-nil old) refl

    after :
        ◌≡◌ {A = Message}
          (record {
            payload = pre ++ (bytes ++ []);
            size = length pre + n;
            io_pos = length pre + length bytes;
            chunk_pos = 0;
          })
          (full (pre ++ bytes))
    after = rw (append-nil bytes, length-append pre bytes, k) refl

pub write_int-full :
    (mem : Memory) (v : ℕ) (pre : Bytes)
    → IsRoomy mem
    → length pre + 4 < 32768
    → write_int mem v (full pre) ≡ some (4, full (pre ++ le_bytes 4 v))
unfolding write_int
write_int-full mem v pre roomy h =
    let (fresh, l, g) = grow-full mem 4 pre roomy h in
    rw (g, put_bytes-last pre fresh (le_bytes 4 v) 4 l (length-le_bytes 4 v) h) refl

pub write_short-full :
    (mem : Memory) (v : ℕ) (pre : Bytes)
    → IsRoomy mem
    → length pre + 2 < 32768
    → write_short mem v (full pre) ≡ some (2, full (pre ++ le_bytes 2 v))
unfolding write_short
write_short-full mem v pre roomy h =
    let (fresh, l, g) = grow-full mem 2 pre roomy h in
    rw (g, put_bytes-last pre fresh (le_bytes 2 v) 2 l (length-le_bytes 2 v) h) refl

-- The bytes of a string field.
abbrev pub text_bytes : Bytes → Bytes
text_bytes v = le_bytes 2 (length v) ++ v

pub length-drop : (n : ℕ) (xs : Bytes) (k : ℕ) → length xs ≡ n + k → length (drop n xs) ≡ k
length-drop zero xs k h = omega arith
length-drop (suc n) [] k h = absurd (omega arith)
length-drop (suc n) (x ∷ xs) k h = length-drop n xs k (omega arith)

pub put_length :
    (pre fresh v : Bytes)
    → length fresh ≡ 2 + length v
    → length pre + (2 + length v) < 32768
    → put_bytes (le_bytes 2 (length v)) (record {
      payload = pre ++ fresh;
      size = length pre + (2 + length v);
      io_pos = length pre;
      chunk_pos = 0;
    })
      ≡ some (record {
        payload = (pre ++ le_bytes 2 (length v)) ++ drop 2 fresh;
        size = length (pre ++ le_bytes 2 (length v)) + length v;
        io_pos = length (pre ++ le_bytes 2 (length v));
        chunk_pos = 0;
      })
put_length pre fresh v h small =
    ap (put_bytes head) before
    ∙ put_bytes-middle pre (take 2 fresh) (drop 2 fresh) head total
        (length-take 2 fresh (omega arith) ∙ sym two) (omega (arith, two))
    ∙ ap some after
  where
    head : Bytes
    head = le_bytes 2 (length v)

    two : length head ≡ 2
    two = length-le_bytes 2 (length v)

    total : ℕ
    total = length pre + (2 + length v)

    before :
        ◌≡◌ {A = Message}
          (record { payload = pre ++ fresh; size = total; io_pos = length pre; chunk_pos = 0 })
          (record {
            payload = pre ++ (take 2 fresh ++ drop 2 fresh);
            size = total;
            io_pos = length pre;
            chunk_pos = 0;
          })
    before = rw (take-append-drop 2 fresh) refl

    grown : length (pre ++ head) + length v ≡ total
    grown = omega (arith, length-append pre head, two)

    after :
        ◌≡◌ {A = Message}
          (record {
            payload = pre ++ (head ++ drop 2 fresh);
            size = total;
            io_pos = length pre + length head;
            chunk_pos = 0;
          })
          (record {
            payload = (pre ++ head) ++ drop 2 fresh;
            size = length (pre ++ head) + length v;
            io_pos = length (pre ++ head);
            chunk_pos = 0;
          })
    after = rw (grown, append_assoc pre head (drop 2 fresh), length-append pre head) refl

pub put_text-full :
    (pre old v : Bytes)
    → length old ≡ length v
    → length pre + length v < 32768
    → put_text (length v) v (record {
      payload = pre ++ old;
      size = length pre + length v;
      io_pos = length pre;
      chunk_pos = 0;
    })
      ≡ some (length v, full (pre ++ v))
unfolding put_text
put_text-full pre old v h small =
    rw
      (
        lt→ltb (length v) 32768 (omega arith),
        take_all v (length v) (omega arith),
        put_bytes-last pre old v (length v) h refl small,
      )
      refl

pub write_string-full :
    (mem : Memory) (v pre : Bytes)
    → IsRoomy mem
    → length pre + (2 + length v) < 32768
    → write_string mem v (full pre) ≡ some (length v, full (pre ++ text_bytes v))
unfolding write_string
write_string-full mem v pre roomy h =
    let (fresh, l, g) = grow-full mem (2 + length v) pre roomy h in
    let head = le_bytes 2 (length v) in
    let small : length (pre ++ head) + length v < 32768 =
      omega (arith, length-append pre head, length-le_bytes 2 (length v)) in
    rw
      (
        g,
        short-small (length v) (omega arith),
        put_length pre fresh v l h,
        short-small (length v) (omega arith),
        put_text-full (pre ++ head) (drop 2 fresh) v (length-drop 2 fresh (length v) l) small,
        append_assoc pre head v,
      )
      refl

-- A write for which the allocator has no block answers nothing written. The message is as before for
-- an int; for a short its size is two too small, and for a string it is off by the length less two.
pub refused_writes :
    (mem : Memory) (v : ℕ) (s : Bytes) (m : Message)
    → ((n : ℕ) → mem.alloc n ≡ false)
    → m.size < 65536
    → (write_int mem v m ≡ some (0, m))
      × (write_short mem v m ≡ some (0, record m { size = (m.size + 65534) % 65536 }))
      × (write_string mem s m ≡ some (0, record m { size = (m.size + length s + 65534) % 65536 }))
unfolding write_int write_short write_string grow
refused_writes mem v s m none_left small = (
  rw (none_left) (ap answer back),
  rw (none_left) (ap answer two_less),
  rw (none_left) (ap answer off),
)
  where
    answer : ℕ → Option (ℕ × Message)
    answer z = some (0, record m { size = z })

    back : short (short (m.size + 4) + 65532) ≡ m.size
    back = omega arith

    two_less : short (short (m.size + 2) + 65532) ≡ (m.size + 65534) % 65536
    two_less = omega arith

    off : short (short (m.size + (2 + length s)) + 65532) ≡ (m.size + length s + 65534) % 65536
    off = omega arith
