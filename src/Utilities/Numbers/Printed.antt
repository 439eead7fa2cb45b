-- ===== src/Utilities/Numbers/Printed.antt =====
-- What ston<int> of src/Utilities.cpp reads of the prints of ntos<int>.
use libcernvm.Prelude.{
  ℕ, zero, suc, ◌+◌, ◌-◌, ◌*◌, ◌/◌, ◌%◌, ◌≤◌, ◌<◌, ◌≡◌, refl, ap, ◌∙◌, inl, inr, true, [], ◌∷◌,
  ◌++◌, arith, ltb, leb, ltb→lt, Bool-cases,
}
use libcernvm.Prelude.Keys.{Bytes}
use libcernvm.Prelude.Member.{All, mem}
use libcernvm.Utilities.Numbers.{read_digits, ston, decimal, ntos}

abbrev IsDigit : ℕ → Type 0
IsDigit c = (leb b'0' c ≡ true) × (leb c b'9' ≡ true)

-- 10 ^ places
unfoldable tens : ℕ → ℕ
tens zero = 1
tens (suc places) = 10 * tens places

read_digits-snoc :
    (acc : ℕ) (s : Bytes) (d : ℕ)
    → All IsDigit s
    → d < 10
    → read_digits acc (s ++ ((b'0' + d) ∷ [])) ≡ read_digits acc s * 10 + d
unfolding read_digits
read_digits-snoc acc [] d h small = ground (arith, small)
read_digits-snoc acc (c ∷ s) d h small =
    ground (arith, h.0.0, h.0.1, read_digits-snoc (acc * 10 + (c - b'0')) s d h.1 small)

All-snoc : (s : Bytes) (c : ℕ) → All IsDigit s → IsDigit c → All IsDigit (s ++ (c ∷ []))
All-snoc [] c h k = (k, tt)
All-snoc (x ∷ s) c h k = (h.0, All-snoc s c h.1 k)

digit : (d : ℕ) → d < 10 → IsDigit (b'0' + d)
digit d h = (ground (arith, h), ground (arith, h))

decimal-IsDigit : (places n : ℕ) → All IsDigit (decimal places n)
unfolding decimal
decimal-IsDigit zero n = tt
decimal-IsDigit (suc places) n = elim (Bool-cases (ltb n 10)) [
  | inl small ↦ rw small (digit n (ltb→lt n 10 small), tt)
  | inr large ↦ rw large (
      All-snoc (decimal places (n / 10)) (b'0' + n % 10) (decimal-IsDigit places (n / 10))
        (digit (n % 10) (omega arith)))
]

ltb-true : (n : ℕ) → n < 10 → ltb n 10 ≡ true
ltb-true n h = ground (arith, h)

read_digits-digit : (n : ℕ) → n < 10 → read_digits 0 ((b'0' + n) ∷ []) ≡ n
unfolding read_digits
read_digits-digit n h = ground (arith, h)

read_digits-decimal :
    (places n : ℕ) → n < tens (suc places) → read_digits 0 (decimal (suc places) n) ≡ n
unfolding tens decimal
read_digits-decimal zero n h =
    rw (ltb-true n (omega (arith, h))) (read_digits-digit n (omega (arith, h)))
read_digits-decimal (suc places) n h = elim (Bool-cases (ltb n 10)) [
  | inl small ↦ rw small (read_digits-digit n (ltb→lt n 10 small))
  | inr large ↦ rw large (
      read_digits-snoc 0 (decimal (suc places) (n / 10)) (n % 10)
        (decimal-IsDigit (suc places) (n / 10)) (omega arith)
      ∙ ap (λ k. k * 10 + n % 10) (read_digits-decimal places (n / 10) (omega (arith, h)))
      ∙ omega arith)
]

ston-digits : (s : Bytes) → All IsDigit s → read_digits 0 s < 2147483648 → ston s ≡ read_digits 0 s
unfolding ston mem
ston-digits [] h small = unfold read_digits in refl
ston-digits (c ∷ s) h small = ground (arith, h.0.0, h.0.1, small)

ston-minus :
    (s : Bytes)
    → 0 < read_digits 0 s
    → read_digits 0 s ≤ 2147483648
    → ston (b'-' ∷ s) ≡ 4294967296 - read_digits 0 s
unfolding ston mem
ston-minus s some_left fits = ground (arith, some_left, fits)

ten_places : (n : ℕ) → n < 4294967296 → read_digits 0 (decimal 10 n) ≡ n
ten_places n h = read_digits-decimal 9 n (unfold tens in omega (arith, h))

-- ston<int> reads from the print of ntos<int> the int that was printed.
pub ston-ntos : (n : ℕ) → n < 4294967296 → ston (ntos n) ≡ n
unfolding ntos
ston-ntos n h = elim (Bool-cases (ltb n 2147483648)) [
  | inl positive ↦ rw positive (
      ston-digits (decimal 10 n) (decimal-IsDigit 10 n)
        (omega (arith, ten_places n h, ltb→lt n 2147483648 positive))
      ∙ ten_places n h)
  | inr negative ↦
      let m = 4294967296 - n in
      let bound : 2147483648 ≤ n = ground (arith, negative) in
      let read : read_digits 0 (decimal 10 m) ≡ m = ten_places m (omega (arith, bound)) in
      rw negative (
        ston-minus (decimal 10 m) (omega (arith, read, h)) (omega (arith, read, bound))
        ∙ omega (arith, read, h))
]
