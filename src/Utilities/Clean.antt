-- ===== src/Utilities/Clean.antt =====
-- isSanitized and urlEncode of src/Utilities.cpp.
use libcernvm.Prelude.Texts.{codes}
use libcernvm.Prelude.{ℕ, ◌+◌, ◌/◌, ◌%◌, Bool, ◌&&◌, ◌||◌, [], ◌∷◌, if◌then◌else◌, ltb, leb}
use libcernvm.Prelude.Member.{mem, all_of}
use libcernvm.Prelude.Keys.{Bytes}

-- every character is one of the given ones
unfoldable pub is_sanitized : Bytes → Bytes → Bool
is_sanitized check chars = all_of check (λ c. mem c chars)

unfoldable pub unreserved : ℕ → Bool
unreserved c =
    (leb b'A' c && leb c b'Z')
    || (leb b'a' c && leb c b'z')
    || (leb b'0' c && leb c b'9')
    || mem c (codes "-_.~")

-- a digit of `%.2X`
unfoldable pub hex_digit : ℕ → ℕ
hex_digit d = if ltb d 10 then b'0' + d else 55 + d

unfoldable pub url_encode : Bytes → Bytes
url_encode [] = []
url_encode (c ∷ s) =
    let rest = url_encode s in
    if unreserved c then c ∷ rest else b'%' ∷ hex_digit (c / 16) ∷ hex_digit (c % 16) ∷ rest

-- SAFE_ALNUM_CHARS
abbrev pub alnum_chars : Bytes
alnum_chars = codes "abcdefghijklmnopqrstuvwxyz+ABCDEFGHIJKLMNOPQRSTUVWXYZ-0123456789_~"
