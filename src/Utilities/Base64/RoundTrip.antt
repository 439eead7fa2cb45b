-- ===== src/Utilities/Base64/RoundTrip.antt =====
-- The decoder of src/Utilities.cpp takes back what its encoder wrote.
use libcernvm.Prelude.{
  ℕ, zero, suc, ◌+◌, ◌-◌, ◌*◌, ◌/◌, ◌%◌, ◌≤◌, ◌<◌, ◌≡◌, refl, ap, ◌∙◌, true, false, [], ◌∷◌, ◌++◌,
  some, arith, if◌then◌else◌, length, replicate, ltb, leb, ◌^◌, ◌==◌, inl, inr, Bool-cases,
}
use libcernvm.Prelude.Member.{All, mem}
use libcernvm.Prelude.Keys.{Bytes}
use libcernvm.Utilities.Base64.{
  b64_char, b64_value, shift_in, flush, encode_loop, base64_encode_ptr, base64_encode, is_space,
  prepend, decode_loop, base64_decode,
}
use libcernvm.Utilities.Base64.Bits.{
  is_code, code_lem, first_bits, next_bits, third_bits, last_bits, first_byte, next_byte, last_byte,
}

abbrev pub IsByte : ℕ → Type 0
IsByte b = b < 256

three : ℕ → ℕ → ℕ → ℕ → ℕ
three a b c n = shift_in 8 c (shift_in 8 b (shift_in 8 a n))

module _ (n a : ℕ) (ha : a < 256) where
  encode-one : encode_loop n 0 (a ∷ []) ≡ b64_char (a / 4) ∷ b64_char (a % 4 * 16) ∷ []
  unfolding encode_loop flush
  encode-one = rw (first_bits n a 0 ha (omega arith), left_bits) refl
    where
      left_bits : shift_in 4 0 (shift_in 8 a n) % 64 ≡ a % 4 * 16
      left_bits = unfold shift_in in omega arith

  module _ (b : ℕ) (hb : b < 256) where
    encode-two :
        encode_loop n 0 (a ∷ b ∷ [])
        ≡ b64_char (a / 4) ∷ b64_char (a % 4 * 16 + b / 16) ∷ b64_char (b % 16 * 4) ∷ []
    unfolding encode_loop flush
    encode-two = rw (first_bits n a b ha hb, next_bits n a b ha hb, left_bits) refl
      where
        left_bits : shift_in 2 0 (shift_in 8 b (shift_in 8 a n)) % 64 ≡ b % 16 * 4
        left_bits = unfold shift_in in omega arith

    module _ (c : ℕ) (hc : c < 256) where
      encode-three :
          (bs : Bytes)
          → encode_loop n 0 (a ∷ b ∷ c ∷ bs)
            ≡ b64_char (a / 4)
              ∷ b64_char (a % 4 * 16 + b / 16)
              ∷ b64_char (b % 16 * 4 + c / 64)
              ∷ b64_char (c % 64)
              ∷ encode_loop (three a b c n) 0 bs
      unfolding encode_loop flush three
      encode-three bs =
          rw
            (
              first_bits n a b ha hb,
              next_bits n a b ha hb,
              third_bits (shift_in 8 a n) b c hb hc,
              last_bits (shift_in 8 b (shift_in 8 a n)) b c hb hc,
            )
            refl

IsCode : ℕ → ℕ → Type 0
IsCode v c = (is_space c ≡ false) × ((c == b'=') ≡ false) × (ltb 127 c ≡ false) × (b64_value c ≡ v)

b64_char-IsCode : (v : ℕ) → v < 64 → IsCode v (b64_char v)
unfolding is_code IsCode
b64_char-IsCode v h = of (code_lem v h)
  where
    of : is_code v ≡ true → IsCode v (b64_char v)
    of e = (ground (arith, e), ground (arith, e), ground (arith, e), ground (arith, e))

-- What the decoder does with a character of the code.
decode-code :
    (n bits v : ℕ) (cs : Bytes)
    → v < 64
    → decode_loop n bits (b64_char v ∷ cs) ≡ (
        if leb 8 (bits + 6)
        then prepend
            (shift_in 6 v n / 2 ^ (bits - 2) % 256)
            (decode_loop (shift_in 6 v n) (bits - 2) cs)
        else decode_loop (shift_in 6 v n) (bits + 6) cs)
unfolding decode_loop IsCode
decode-code n bits v cs h =
    let code = b64_char-IsCode v h in
    let small : ltb 63 v ≡ false = ground arith in
    rw (code.0, code.1, code.2, code.3, small, decode_loop)
      (elim (Bool-cases (leb 8 (bits + 6))) [ inl full ↦ rw full refl | inr more ↦ rw more refl ])

decode-padding : (n bits k : ℕ) → decode_loop n bits (replicate k b'=') ≡ some []
unfolding decode_loop is_space mem
decode-padding n bits zero = refl
decode-padding n bits (suc k) = decode-padding n bits k

four : ℕ → ℕ → ℕ → ℕ → ℕ → ℕ
four u v w x m = shift_in 6 x (shift_in 6 w (shift_in 6 v (shift_in 6 u m)))

-- Four characters make three bytes.
module _ (m u v : ℕ) (hu : u < 64) (hv : v < 64) where
  decode-two :
      (cs : Bytes)
      → decode_loop m 0 (b64_char u ∷ b64_char v ∷ cs)
        ≡ prepend (u * 4 + v / 16) (decode_loop (shift_in 6 v (shift_in 6 u m)) 4 cs)
  decode-two cs =
      decode-code m 0 u (b64_char v ∷ cs) hu
      ∙ decode-code (shift_in 6 u m) 6 v cs hv
      ∙ rw (first_byte m u v hu hv) refl

  module _ (w : ℕ) (hw : w < 64) where
    decode-three :
        (cs : Bytes)
        → decode_loop m 0 (b64_char u ∷ b64_char v ∷ b64_char w ∷ cs)
          ≡ prepend (u * 4 + v / 16) (
              prepend
                (v % 16 * 16 + w / 4)
                (decode_loop (shift_in 6 w (shift_in 6 v (shift_in 6 u m))) 2 cs))
    decode-three cs =
        decode-two (b64_char w ∷ cs)
        ∙ ap (prepend (u * 4 + v / 16)) (
            decode-code (shift_in 6 v (shift_in 6 u m)) 4 w cs hw
            ∙ rw (next_byte (shift_in 6 u m) v w hv hw) refl)

    module _ (x : ℕ) (hx : x < 64) where
      decode-four :
          (cs : Bytes)
          → decode_loop m 0 (b64_char u ∷ b64_char v ∷ b64_char w ∷ b64_char x ∷ cs)
            ≡ prepend (u * 4 + v / 16) (
                prepend
                  (v % 16 * 16 + w / 4)
                  (prepend (w % 4 * 64 + x) (decode_loop (four u v w x m) 0 cs)))
      unfolding four
      decode-four cs =
          decode-three (b64_char x ∷ cs)
          ∙ ap (λ o. prepend (u * 4 + v / 16) (prepend (v % 16 * 16 + w / 4) o))
              (decode-code (shift_in 6 w (shift_in 6 v (shift_in 6 u m))) 2 x cs hx
                ∙ rw (last_byte (shift_in 6 v (shift_in 6 u m)) w x hw hx) refl)

-- The bytes behind the values.
first_of_two : (a b : ℕ) → b < 256 → a / 4 * 4 + (a % 4 * 16 + b / 16) / 16 ≡ a
first_of_two a b h = omega arith

second_of_three :
    (a b c : ℕ)
    → b < 256
    → c < 256
    → (a % 4 * 16 + b / 16) % 16 * 16 + (b % 16 * 4 + c / 64) / 4 ≡ b
second_of_three a b c hb hc = omega arith

third_of_three : (b c : ℕ) → c < 256 → (b % 16 * 4 + c / 64) % 4 * 64 + c % 64 ≡ c
third_of_three b c h = omega arith

-- The loops, whatever stands in the accumulators, with any padding.
decode_loop-encode_loop :
    (m n k : ℕ) (bs : Bytes)
    → All IsByte bs
    → decode_loop m 0 (encode_loop n 0 bs ++ replicate k b'=') ≡ some bs
unfolding prepend
decode_loop-encode_loop m n k [] h = unfold encode_loop in decode-padding m 0 k
decode_loop-encode_loop m n k (a ∷ []) h =
    ap (λ cs. decode_loop m 0 (cs ++ replicate k b'=')) (encode-one n a h.0)
    ∙ decode-two m (a / 4) (a % 4 * 16) (omega (arith, h.0)) (omega arith) (replicate k b'=')
    ∙ rw (decode-padding _ 4 k) (ap (λ x. some (x ∷ [])) whole)
  where
    whole : a / 4 * 4 + a % 4 * 16 / 16 ≡ a
    whole = omega arith
decode_loop-encode_loop m n k (a ∷ b ∷ []) h =
    ap (λ cs. decode_loop m 0 (cs ++ replicate k b'=')) (encode-two n a h.0 b h.1.0)
    ∙ decode-three m (a / 4) (a % 4 * 16 + b / 16) (omega (arith, h.0)) (omega (arith, h.1.0))
        (b % 16 * 4) (omega arith) (replicate k b'=')
    ∙ rw (decode-padding _ 2 k) (rw (first_of_two a b h.1.0, second) refl)
  where
    second : (a % 4 * 16 + b / 16) % 16 * 16 + b % 16 * 4 / 4 ≡ b
    second = omega (arith, h.1.0)
decode_loop-encode_loop m n k (a ∷ b ∷ c ∷ bs) h =
    ap (λ cs. decode_loop m 0 (cs ++ replicate k b'=')) (encode-three n a h.0 b h.1.0 c h.1.1.0 bs)
    ∙ decode-four m (a / 4) (a % 4 * 16 + b / 16) (omega (arith, h.0)) (omega (arith, h.1.0))
        (b % 16 * 4 + c / 64) (omega (arith, h.1.1.0)) (c % 64) (omega arith) _
    ∙ rw
        (
          decode_loop-encode_loop
              (four (a / 4) (a % 4 * 16 + b / 16) (b % 16 * 4 + c / 64) (c % 64) m) (three a b c n)
              k bs h.1.1.1,
          first_of_two a b h.1.0,
          second_of_three a b c h.1.0 h.1.1.0,
          third_of_three b c h.1.1.0,
        )
        refl

length-encode_loop :
    (n : ℕ) (bs : Bytes)
    → All IsByte bs
    → (length (encode_loop n 0 bs) ≤ (length bs + 2) / 3 * 4)
      × ((length bs + 2) / 3 * 4 ≤ length (encode_loop n 0 bs) + 2)
length-encode_loop n [] h = unfold encode_loop in (omega arith, omega arith)
length-encode_loop n (a ∷ []) h = rw (encode-one n a h.0) (omega arith, omega arith)
length-encode_loop n (a ∷ b ∷ []) h = rw (encode-two n a h.0 b h.1.0) (omega arith, omega arith)
length-encode_loop n (a ∷ b ∷ c ∷ bs) h =
    let rest = length-encode_loop (three a b c n) bs h.1.1.1 in
    rw (encode-three n a h.0 b h.1.0 c h.1.1.0 bs) (omega (arith, rest.0), omega (arith, rest.1))

base64_decode_lem : (cs : Bytes) → base64_decode cs ≡ decode_loop 0 0 cs
unfolding base64_decode decode_loop
base64_decode_lem [] = refl
base64_decode_lem (c ∷ cs) = refl

-- For a text of bytes, the decoder gives back what the encoder wrote for it, although its
-- accumulator of 32 bits drops bits of a long text; the characters of the code fit the string that
-- the encoder made room for, and leave at most two for the padding.
pub base64_decode-base64_encode :
    (bs : Bytes)
    → All IsByte bs
    → (base64_decode (base64_encode bs) ≡ some bs)
      × (length (encode_loop 0 0 bs) ≤ (length bs + 2) / 3 * 4)
      × ((length bs + 2) / 3 * 4 ≤ length (encode_loop 0 0 bs) + 2)
unfolding base64_decode base64_encode base64_encode_ptr
base64_decode-base64_encode [] h =
    (refl, unfold encode_loop in omega arith, unfold encode_loop in omega arith)
base64_decode-base64_encode (b ∷ bs) h = (
  base64_decode_lem _ ∙ decode_loop-encode_loop 0 0 _ (b ∷ bs) h,
  (length-encode_loop 0 (b ∷ bs) h).0,
  (length-encode_loop 0 (b ∷ bs) h).1,
)
