-- ===== src/Utilities/Base64.antt =====
-- base64_encode_ptr, base64_encode and base64_decode of src/Utilities.cpp. The accumulator is a
-- 32-bit unsigned int: a shift to the left drops what leaves it.
mod Bits
pub mod RoundTrip
use libcernvm.Prelude.Texts.{codes}
use libcernvm.Prelude.{
  ℕ, zero, suc, ◌+◌, ◌-◌, ◌*◌, ◌/◌, ◌%◌, ◌^◌, Bool, true, false, not, ◌&&◌, ◌||◌, List, [], ◌∷◌,
  ◌++◌, Option, none, some, if◌then◌else◌, length, get_or, replicate, ltb, leb, ◌==◌, is_nil,
}
use libcernvm.Prelude.Member.{mem}
use libcernvm.Prelude.Keys.{Bytes}

abbrev pub b64_table : Bytes
b64_table = codes "ABCDEFGHIJKLMNOPQRSTUVWXYZabcdefghijklmnopqrstuvwxyz0123456789+/"

abbrev pub reverse_table : List ℕ
reverse_table =
    64 ∷ 64 ∷ 64 ∷ 64 ∷ 64 ∷ 64 ∷ 64 ∷ 64 ∷ 64 ∷ 64 ∷ 64 ∷ 64 ∷ 64 ∷ 64 ∷ 64 ∷ 64 ∷ 64 ∷ 64 ∷ 64
    ∷ 64 ∷ 64 ∷ 64 ∷ 64 ∷ 64 ∷ 64 ∷ 64 ∷ 64 ∷ 64 ∷ 64 ∷ 64 ∷ 64 ∷ 64 ∷ 64 ∷ 64 ∷ 64 ∷ 64 ∷ 64 ∷ 64
    ∷ 64 ∷ 64 ∷ 64 ∷ 64 ∷ 64 ∷ 62 ∷ 64 ∷ 64 ∷ 64 ∷ 63 ∷ 52 ∷ 53 ∷ 54 ∷ 55 ∷ 56 ∷ 57 ∷ 58 ∷ 59 ∷ 60
    ∷ 61 ∷ 64 ∷ 64 ∷ 64 ∷ 64 ∷ 64 ∷ 64 ∷ 64 ∷ 0 ∷ 1 ∷ 2 ∷ 3 ∷ 4 ∷ 5 ∷ 6 ∷ 7 ∷ 8 ∷ 9 ∷ 10 ∷ 11 ∷ 12
    ∷ 13 ∷ 14 ∷ 15 ∷ 16 ∷ 17 ∷ 18 ∷ 19 ∷ 20 ∷ 21 ∷ 22 ∷ 23 ∷ 24 ∷ 25 ∷ 64 ∷ 64 ∷ 64 ∷ 64 ∷ 64 ∷ 64
    ∷ 26 ∷ 27 ∷ 28 ∷ 29 ∷ 30 ∷ 31 ∷ 32 ∷ 33 ∷ 34 ∷ 35 ∷ 36 ∷ 37 ∷ 38 ∷ 39 ∷ 40 ∷ 41 ∷ 42 ∷ 43 ∷ 44
    ∷ 45 ∷ 46 ∷ 47 ∷ 48 ∷ 49 ∷ 50 ∷ 51 ∷ 64 ∷ 64 ∷ 64 ∷ 64 ∷ 64 ∷ []

unfoldable pub b64_char : ℕ → ℕ
b64_char v = get_or b64_table v 0

unfoldable pub b64_value : ℕ → ℕ
b64_value c = get_or reverse_table c 64

-- accumulator << n | v, where v has at most n bits
unfoldable pub shift_in : ℕ → ℕ → ℕ → ℕ
shift_in n v accumulator = accumulator * 2 ^ n % 4294967296 + v

-- The inner loop of the encoder: two rounds at most, as fewer than 14 bits are collected.
unfoldable pub flush : ℕ → ℕ → ℕ → Bytes × ℕ
flush zero accumulator bits = ([], bits)
flush (suc fuel) accumulator bits =
    let (rest, left) = flush fuel accumulator (bits - 6) in
    if leb 6 bits then (b64_char (accumulator / 2 ^ (bits - 6) % 64) ∷ rest, left) else ([], bits)

-- The outer loop of the encoder, and the bits that are left behind it.
unfoldable pub encode_loop : ℕ → ℕ → Bytes → Bytes
encode_loop accumulator bits [] =
    if ltb 0 bits then b64_char (shift_in (6 - bits) 0 accumulator % 64) ∷ [] else []
encode_loop accumulator bits (b ∷ bs) =
    let accumulator' = shift_in 8 b accumulator in
    let (chars, left) = flush 2 accumulator' (bits + 8) in chars ++ encode_loop accumulator' left bs

-- The result is as long as its padding, and its start is overwritten.
unfoldable pub base64_encode_ptr : Bytes → Bytes
base64_encode_ptr data_bytes =
    let chars = encode_loop 0 0 data_bytes in
    chars ++ replicate ((length data_bytes + 2) / 3 * 4 - length chars) b'='

unfoldable pub base64_encode : Bytes → Bytes
base64_encode data_bytes = if is_nil data_bytes then [] else base64_encode_ptr data_bytes

-- isspace, in the C locale
unfoldable pub is_space : ℕ → Bool
is_space c = mem c (32 ∷ 9 ∷ 10 ∷ 11 ∷ 12 ∷ 13 ∷ [])

unfoldable pub prepend : ℕ → Option Bytes → Option Bytes
prepend b none = none
prepend b (some bs) = some (b ∷ bs)

-- The loop of the decoder; `none` is the exception on a character that is not of the code.
unfoldable pub decode_loop : ℕ → ℕ → Bytes → Option Bytes
decode_loop accumulator bits [] = some []
decode_loop accumulator bits (c ∷ cs) =
    let skipped = is_space c || c == b'=' in
    let accumulator' = if skipped then accumulator else shift_in 6 (b64_value c) accumulator in
    let full = not skipped && leb 8 (bits + 6) in
    let left = if skipped then bits else if full then bits - 2 else bits + 6 in
    let rest = decode_loop accumulator' left cs in
    if not skipped && (ltb 127 c || ltb 63 (b64_value c))
    then none
    else if full
    then prepend (accumulator' / 2 ^ left % 256) rest
    else rest

unfoldable pub base64_decode : Bytes → Option Bytes
base64_decode text = if is_nil text then some [] else decode_loop 0 0 text
