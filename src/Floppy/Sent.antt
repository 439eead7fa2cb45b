-- ===== src/Floppy/Sent.antt =====
-- The buffer that send of src/floppyIO.cpp writes, and the image behind it.
use libcernvm.Prelude.{
  ℕ, zero, suc, ◌-◌, ◌%◌, ◌≤◌, ◌<◌, ◌≡◌, refl, sym, ap, ◌∙◌, true, [], ◌∷◌, ◌++◌, some, inl, inr,
  arith, if◌then◌else◌, length, take, replicate, ltb, leb, length-append, length-replicate,
  Bool-cases,
}
use libcernvm.Prelude.Keys.{Bytes}
use libcernvm.Ipc.Blocks.{take_all}
use libcernvm.Floppy.{copy_count, send_buffer}
use libcernvm.Floppy.Image.{
  overwrite, part, until_nul, length-overwrite, part-overwrite_self, part-overwrite_before,
  part-overwrite_after,
}

until_nul-padded : (bs : Bytes) (n : ℕ) → until_nul (bs ++ replicate (suc n) 0) ≡ until_nul bs
unfolding until_nul
until_nul-padded [] n = ground arith
until_nul-padded (b ∷ bs) n = ground (arith, until_nul-padded bs n)

-- Bytes that leave room for a terminator, padded with zeros.
pub padded_lem :
    (bs : Bytes)
    → length bs ≤ 14334
    → (length (bs ++ replicate (14335 - length bs) 0) ≡ 14335)
      × (until_nul (bs ++ replicate (14335 - length bs) 0) ≡ until_nul bs)
padded_lem bs h = (
  omega (arith, length-append bs (replicate (14335 - length bs) 0), room),
  ap (λ n. until_nul (bs ++ replicate n 0)) one_more ∙ until_nul-padded bs (14334 - length bs),
)
  where
    zeros : Bytes
    zeros = replicate (14335 - length bs) 0

    room : length zeros ≡ 14335 - length bs
    room = length-replicate (14335 - length bs) 0

    one_more : 14335 - length bs ≡ suc (14334 - length bs)
    one_more = omega arith

copy_count-small :
    (n : ℕ) → n < 2147483648 → copy_count 14335 n ≡ (if ltb 14334 n then 14334 else n)
unfolding copy_count
copy_count-small n h = rw (wraps) (ground arith)
  where
    wraps : n % 4294967296 ≡ n
    wraps = omega arith

copied_lem :
    (text : Bytes)
    → length text < 2147483648
    → take (copy_count 14335 (length text)) text ≡ take 14334 text
copied_lem text h = elim (Bool-cases (ltb 14334 (length text))) [
  | inl long ↦ rw (copy_count-small (length text) h, long) refl
  | inr short ↦
      rw
        (
          copy_count-small (length text) h,
          short,
          take_all text 14334 (ground arith),
          take_all text (length text) (omega arith),
        )
        refl
]

pub length-take_le : (n : ℕ) (xs : Bytes) → length (take n xs) ≤ n
length-take_le zero xs = omega arith
length-take_le (suc n) [] = omega arith
length-take_le (suc n) (x ∷ xs) = omega (arith, length-take_le n xs)

pub send_buffer_lem :
    (text : Bytes)
    → length text < 2147483648
    → send_buffer 14335 text
      ≡ some (take 14334 text ++ replicate (14335 - length (take 14334 text)) 0)
unfolding send_buffer
send_buffer_lem text h = rw (copied_lem text h, fits) refl
  where
    fits : leb (length (take 14334 text)) 14335 ≡ true
    fits = ground (arith, length-take_le 14334 text)

-- The image after a text was sent.
unfoldable pub sent : Bytes → Bytes → Bytes
sent buffer img = overwrite 28670 (1 ∷ []) (overwrite 0 buffer img)

module _ (buffer img : Bytes) (fills : length buffer ≡ 14335) (size : length img ≡ 28672) where
  posted_size : length (overwrite 0 buffer img) ≡ 28672
  posted_size = length-overwrite 0 buffer img (omega arith) ∙ size

  pub sent_size : length (sent buffer img) ≡ 28672
  unfolding sent
  sent_size =
      length-overwrite 28670 (1 ∷ []) (overwrite 0 buffer img) (omega (arith, posted_size))
      ∙ posted_size

  pub sent_outbox : part 14335 0 (sent buffer img) ≡ buffer
  unfolding sent
  sent_outbox =
      part-overwrite_before 14335 0 28670 (1 ∷ []) (overwrite 0 buffer img) (omega arith)
        (omega (arith, posted_size))
      ∙ ap (λ n. part n 0 (overwrite 0 buffer img)) (sym fills)
      ∙ part-overwrite_self 0 buffer img

  pub sent_posted : part 1 28670 (sent buffer img) ≡ 1 ∷ []
  unfolding sent
  sent_posted = part-overwrite_self 28670 (1 ∷ []) (overwrite 0 buffer img)

  pub sent_inbox : part 14335 14335 (sent buffer img) ≡ part 14335 14335 img
  unfolding sent
  sent_inbox =
      part-overwrite_before 14335 14335 28670 (1 ∷ []) (overwrite 0 buffer img) (omega arith)
        (omega (arith, posted_size))
      ∙ part-overwrite_after 14335 14335 0 buffer img (omega arith)

  pub sent_pending : part 1 28671 (sent buffer img) ≡ part 1 28671 img
  unfolding sent
  sent_pending =
      part-overwrite_after 1 28671 28670 (1 ∷ []) (overwrite 0 buffer img) (omega arith)
      ∙ part-overwrite_after 1 28671 0 buffer img (omega arith)
