-- ===== src/LocalConfig/Escape.antt =====
-- The escaping of values in src/LocalConfig.cpp: the loops of saveMap and loadMap that edit a value
-- in place, with `pos` as the index of the byte that is looked at.
pub mod Laws
use libcernvm.Prelude.Texts.{codes}
use libcernvm.Prelude.{
  ℕ, zero, suc, ◌+◌, ◌-◌, ◌≡◌, Bool, true, false, ◌&&◌, List, [], ◌∷◌, ◌++◌, Option, none, some,
  if◌then◌else◌, length, take, drop, get_or, leb, ◌==◌,
}
use libcernvm.Prelude.Keys.{Bytes}

-- std::string::replace at a position inside the string
unfoldable pub replace : ℕ → ℕ → Bytes → Bytes → Bytes
replace pos n by value = take pos value ++ (by ++ drop (pos + n) value)

-- The loop of saveMap; `none` when the fuel runs out.
unfoldable pub escape_loop : ℕ → ℕ → Bytes → Option Bytes
escape_loop zero pos value = none
escape_loop (suc fuel) pos value =
    let c = get_or value pos 0 in
    let backslash = escape_loop fuel (pos + 1 + 1) (replace pos 1 (codes "\\\\") value) in
    let newline = escape_loop fuel (pos + 1 + 1) (replace pos 1 (codes "\\n") value) in
    let carriage = escape_loop fuel (pos + 1 + 1) (replace pos 1 (codes "\\r") value) in
    let plain = escape_loop fuel (pos + 1) value in
    if leb (length value) pos
    then some value
    else if c == b'\\'
    then backslash
    else if c == b'\n'
    then newline
    else if c == b'\r'
    then carriage
    else plain

unfoldable pub escape_value : Bytes → Option Bytes
escape_value value = escape_loop (suc (length value)) 0 value

-- The loop of loadMap, on a value that is not empty, where `value.length()-1` does not wrap.
unfoldable pub unescape_loop : ℕ → ℕ → Bytes → Option Bytes
unescape_loop zero pos value = none
unescape_loop (suc fuel) pos value =
    let a = get_or value pos 0 in
    let b = get_or value (pos + 1) 0 in
    let backslash = unescape_loop fuel (pos + 1) (replace pos 2 (b'\\' ∷ []) value) in
    let newline = unescape_loop fuel (pos + 1) (replace pos 2 (b'\n' ∷ []) value) in
    let carriage = unescape_loop fuel (pos + 1) (replace pos 2 (b'\r' ∷ []) value) in
    let plain = unescape_loop fuel (pos + 1) value in
    if leb (length value - 1) pos
    then some value
    else if a == b'\\' && b == b'\\'
    then backslash
    else if a == b'\\' && b == b'n'
    then newline
    else if a == b'\\' && b == b'r'
    then carriage
    else plain

unfoldable pub unescape_value : Bytes → Option Bytes
unescape_value value = unescape_loop (suc (length value)) 0 value
