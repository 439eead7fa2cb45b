-- ===== src/Utilities/Base64/Bits.antt =====
-- The characters of the code of src/Utilities.cpp, and the bits of an accumulator that matter.
use libcernvm.Prelude.{
  ℕ, zero, suc, ◌+◌, ◌*◌, ◌/◌, ◌%◌, ◌<◌, ◌≡◌, refl, Bool, true, ◌&&◌, List, [], ◌∷◌, arith, ltb,
  not, ◌==◌,
}
use libcernvm.Prelude.Member.{mem, all_of, all_of_sound}
use libcernvm.Utilities.Base64.{b64_char, b64_value, shift_in, is_space}

upto : ℕ → List ℕ
upto zero = []
upto (suc n) = n ∷ upto n

mem-upto : (n v : ℕ) → v < n → mem v (upto n) ≡ true
unfolding mem upto
mem-upto zero v h = absurd (omega arith)
mem-upto (suc n) v h = ground (arith, mem-upto n v)

-- A character of the code is no space and no padding, is in the table and stands for its value.
unfoldable pub is_code : ℕ → Bool
is_code v =
    let c = b64_char v in
    not (is_space c) && (not (c == b'=') && (not (ltb 127 c) && b64_value c == v))

code_checked : all_of (upto 64) is_code ≡ true
unfolding all_of upto is_code b64_char b64_value is_space mem
code_checked = refl

pub code_lem : (v : ℕ) → v < 64 → is_code v ≡ true
code_lem v h = all_of_sound (upto 64) is_code v code_checked (mem-upto 64 v h)

-- The bits that matter of an accumulator.
module _ (n a b : ℕ) (ha : a < 256) (hb : b < 256) where
  pub first_bits : shift_in 8 a n / 4 % 64 ≡ a / 4
  unfolding shift_in
  first_bits = omega arith

  pub next_bits : shift_in 8 b (shift_in 8 a n) / 16 % 64 ≡ a % 4 * 16 + b / 16
  unfolding shift_in
  next_bits = omega arith

  pub third_bits : shift_in 8 b (shift_in 8 a n) / 64 % 64 ≡ a % 16 * 4 + b / 64
  unfolding shift_in
  third_bits = omega arith

  pub last_bits : shift_in 8 b n / 1 % 64 ≡ b % 64
  unfolding shift_in
  last_bits = omega arith

module _ (n v w : ℕ) (hv : v < 64) (hw : w < 64) where
  pub first_byte : shift_in 6 w (shift_in 6 v n) / 16 % 256 ≡ v * 4 + w / 16
  unfolding shift_in
  first_byte = omega arith

  pub next_byte : shift_in 6 w (shift_in 6 v n) / 4 % 256 ≡ v % 16 * 16 + w / 4
  unfolding shift_in
  next_byte = omega arith

  pub last_byte : shift_in 6 w (shift_in 6 v n) / 1 % 256 ≡ v % 4 * 64 + w
  unfolding shift_in
  last_byte = omega arith
