-- ===== src/Utilities/Numbers.antt =====
-- ston<int> and ntos<int> of src/Utilities.cpp, which read and print by a stringstream. An int is given by
-- its pattern of 32 bits.
pub mod Printed
use libcernvm.Prelude.{
  ℕ, zero, suc, ◌+◌, ◌-◌, ◌*◌, ◌/◌, ◌%◌, Bool, ◌&&◌, ◌||◌, [], ◌∷◌, ◌++◌, if◌then◌else◌, ltb, leb,
  ◌==◌,
}
use libcernvm.Prelude.Keys.{Bytes}
use libcernvm.Prelude.Member.{mem}

-- ston<int>: blanks, a sign and digits; 0 for no digits and for what no int holds. A negative
-- number is given by its pattern of 32 bits.
unfoldable pub read_digits : ℕ → Bytes → ℕ
read_digits acc [] = acc
read_digits acc (c ∷ s) =
    let more = read_digits (acc * 10 + (c - b'0')) s in
    if leb b'0' c && leb c b'9' then more else acc

unfoldable pub ston : Bytes → ℕ
ston [] = 0
ston (c ∷ s) =
    let after_blank = ston s in
    let value = read_digits 0 (c ∷ s) in
    let plus = read_digits 0 s in
    if mem c (32 ∷ 9 ∷ 10 ∷ 11 ∷ 12 ∷ 13 ∷ [])
    then after_blank
    else if c == b'-'
    then if ltb 2147483648 plus || plus == 0 then 0 else 4294967296 - plus
    else let v = if c == b'+' then plus else value in if ltb v 2147483648 then v else 0

-- The digits of a number, at most so many of them
unfoldable pub decimal : ℕ → ℕ → Bytes
decimal zero n = []
decimal (suc places) n =
    let front = decimal places (n / 10) in
    if ltb n 10 then (b'0' + n) ∷ [] else front ++ ((b'0' + n % 10) ∷ [])

unfoldable pub ntos : ℕ → Bytes
ntos n = if ltb n 2147483648 then decimal 10 n else b'-' ∷ decimal 10 (4294967296 - n)
