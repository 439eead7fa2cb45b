-- ===== src/LocalConfig/Escape/Laws.antt =====
-- The loops compute plain recursions over the value, and the second undoes the first.
use libcernvm.Prelude.Texts.{codes}
use libcernvm.Prelude.{
  ℕ, zero, suc, ◌+◌, ◌<◌, ◌≡◌, refl, ap, ◌∙◌, false, ◌&&◌, [], ◌∷◌, ◌++◌, Option, some, arith,
  if◌then◌else◌, length, take, drop, get_or, ◌==◌, append_assoc, length-append, is_nil,
}
use native.Mathlib.Nat.{zero-add, suc-add, add-zero}
use libcernvm.Prelude.Keys.{Bytes}
use libcernvm.Prelude.Member.{mem}
use libcernvm.LocalConfig.Escape.{replace, escape_loop, escape_value, unescape_loop, unescape_value}

-- What one byte of a value is written as.
unfoldable pub escaped_byte : ℕ → Bytes
escaped_byte c =
    if c == b'\\'
    then b'\\' ∷ b'\\' ∷ []
    else if c == b'\n'
    then b'\\' ∷ b'n' ∷ []
    else if c == b'\r'
    then b'\\' ∷ b'r' ∷ []
    else c ∷ []

unfoldable pub escaped : Bytes → Bytes
escaped [] = []
escaped (c ∷ v) = escaped_byte c ++ escaped v

take_front : (pre rest : Bytes) → take (length pre) (pre ++ rest) ≡ pre
take_front [] rest = refl
take_front (x ∷ pre) rest = ap (◌∷◌ x) (take_front pre rest)

drop_front : (n : ℕ) (pre rest : Bytes) → drop (length pre + n) (pre ++ rest) ≡ drop n rest
drop_front n [] rest = rw (zero-add) refl
drop_front n (x ∷ pre) rest = rw (suc-add) (drop_front n pre rest)

get_front : (n : ℕ) (pre rest : Bytes) → get_or (pre ++ rest) (length pre + n) 0 ≡ get_or rest n 0
get_front n [] rest = rw zero-add refl
get_front n (x ∷ pre) rest = rw suc-add (get_front n pre rest)

replace_front :
    (n : ℕ) (by pre rest : Bytes)
    → replace (length pre) n by (pre ++ rest) ≡ pre ++ (by ++ drop n rest)
unfolding replace
replace_front n by pre rest = rw (take_front, drop_front) refl

get_here : (c : ℕ) (pre rest : Bytes) → get_or (pre ++ c ∷ rest) (length pre) 0 ≡ c
get_here c pre rest = rw (← add-zero (length pre)) (get_front 0 pre (c ∷ rest))

-- A loop that goes on behind `by`, which is now part of what is done.
loop_behind :
    (loop : ℕ → Bytes → Option Bytes) (spec by pre rest : Bytes) (pos : ℕ)
    → pos ≡ length pre + length by
    → loop (length (pre ++ by)) ((pre ++ by) ++ rest) ≡ some ((pre ++ by) ++ spec)
    → loop pos (pre ++ (by ++ rest)) ≡ some (pre ++ (by ++ spec))
loop_behind loop spec by pre rest pos e h =
    let there : pos ≡ length (pre ++ by) = omega (arith, length-append pre by) in
    rw (there, ← append_assoc pre by rest, ← append_assoc pre by spec) h

escape_loop-escaped :
    (fuel : ℕ) (pre rest : Bytes)
    → length rest < fuel
    → escape_loop fuel (length pre) (pre ++ rest) ≡ some (pre ++ escaped rest)
unfolding escape_loop escaped escaped_byte
escape_loop-escaped zero pre rest h = absurd (omega arith)
escape_loop-escaped (suc fuel) pre [] h = ground (arith, length-append pre [])
escape_loop-escaped (suc fuel) pre (c ∷ rest) h =
    let ih = λ (by : Bytes). escape_loop-escaped fuel (pre ++ by) rest (omega arith) in
    let behind = λ (by : Bytes). loop_behind (escape_loop fuel) (escaped rest) by pre rest in
    ground (
      arith,
      length-append pre (c ∷ rest),
      get_here c pre rest,
      replace_front 1 (codes "\\\\") pre (c ∷ rest),
      replace_front 1 (codes "\\n") pre (c ∷ rest),
      replace_front 1 (codes "\\r") pre (c ∷ rest),
      behind (codes "\\\\") (length pre + 1 + 1) (omega arith) (ih (codes "\\\\")),
      behind (codes "\\n") (length pre + 1 + 1) (omega arith) (ih (codes "\\n")),
      behind (codes "\\r") (length pre + 1 + 1) (omega arith) (ih (codes "\\r")),
      behind (c ∷ []) (length pre + 1) (omega arith) (ih (c ∷ [])),
    )

-- saveMap's loop ends, with the value escaped byte by byte.
pub escape_value-escaped : (v : Bytes) → escape_value v ≡ some (escaped v)
unfolding escape_value
escape_value-escaped v = escape_loop-escaped (suc (length v)) [] v (omega arith)

-- The reading of a value, as a recursion over it.
unfoldable pub unescaped : Bytes → Bytes
unescaped [] = []
unescaped (a ∷ []) = a ∷ []
unescaped (a ∷ b ∷ v) =
    let shorter = unescaped v in
    let plain = unescaped (b ∷ v) in
    if a == b'\\' && b == b'\\'
    then b'\\' ∷ shorter
    else if a == b'\\' && b == b'n'
    then b'\n' ∷ shorter
    else if a == b'\\' && b == b'r'
    then b'\r' ∷ shorter
    else a ∷ plain

unescape_loop-unescaped :
    (fuel : ℕ) (pre rest : Bytes)
    → length rest < fuel
    → unescape_loop fuel (length pre) (pre ++ rest) ≡ some (pre ++ unescaped rest)
unfolding unescape_loop unescaped
unescape_loop-unescaped zero pre rest h = absurd (omega arith)
unescape_loop-unescaped (suc fuel) pre [] h = ground (arith, length-append pre [])
unescape_loop-unescaped (suc fuel) pre (a ∷ []) h = ground (arith, length-append pre (a ∷ []))
unescape_loop-unescaped (suc fuel) pre (a ∷ b ∷ rest) h =
    let ih = λ (by : Bytes). unescape_loop-unescaped fuel (pre ++ by) rest (omega arith) in
    let behind = λ (by : Bytes).
      loop_behind (unescape_loop fuel) (unescaped rest) by pre rest (length pre + 1) in
    ground (
      arith,
      length-append pre (a ∷ b ∷ rest),
      get_here a pre (b ∷ rest),
      get_front 1 pre (a ∷ b ∷ rest),
      replace_front 2 (b'\\' ∷ []) pre (a ∷ b ∷ rest),
      replace_front 2 (b'\n' ∷ []) pre (a ∷ b ∷ rest),
      replace_front 2 (b'\r' ∷ []) pre (a ∷ b ∷ rest),
      behind (b'\\' ∷ []) (omega arith) (ih (b'\\' ∷ [])),
      behind (b'\n' ∷ []) (omega arith) (ih (b'\n' ∷ [])),
      behind (b'\r' ∷ []) (omega arith) (ih (b'\r' ∷ [])),
      loop_behind (unescape_loop fuel) (unescaped (b ∷ rest)) (a ∷ []) pre (b ∷ rest)
          (length pre + 1) (omega arith)
          (unescape_loop-unescaped fuel (pre ++ a ∷ []) (b ∷ rest) (omega arith)),
    )

pub unescape_value-unescaped : (v : Bytes) → unescape_value v ≡ some (unescaped v)
unfolding unescape_value
unescape_value-unescaped v = unescape_loop-unescaped (suc (length v)) [] v (omega arith)

-- A byte that is no backslash stands for itself.
unescaped_plain : (c : ℕ) (v : Bytes) → (c == b'\\') ≡ false → unescaped (c ∷ v) ≡ c ∷ unescaped v
unfolding unescaped
unescaped_plain c [] h = refl
unescaped_plain c (b ∷ v) h = ground arith

pub unescaped-escaped : (v : Bytes) → unescaped (escaped v) ≡ v
unfolding escaped escaped_byte unescaped
unescaped-escaped [] = refl
unescaped-escaped (c ∷ v) = ground (arith, unescaped-escaped v, unescaped_plain c (escaped v))

-- A value read back as loadMap does it is the value that saveMap wrote, whatever its bytes.
pub unescape-escape :
    (v : Bytes) → (w : Bytes) × (escape_value v ≡ some w) × (unescape_value w ≡ some v)
unescape-escape v = (
  escaped v,
  escape_value-escaped v,
  unescape_value-unescaped (escaped v) ∙ ap some (unescaped-escaped v),
)

-- An escaped value stays on its line.
pub mem-escaped : (v : Bytes) → mem b'\n' (escaped v) ≡ false
unfolding mem escaped escaped_byte
mem-escaped [] = refl
mem-escaped (c ∷ v) = ground (arith, mem-escaped v)

pub is_nil-escaped : (v : Bytes) → is_nil (escaped v) ≡ is_nil v
unfolding escaped escaped_byte
is_nil-escaped [] = refl
is_nil-escaped (c ∷ v) = ground arith
