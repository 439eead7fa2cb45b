-- ===== src/Floppy/Image.antt =====
-- The std::fstream of src/floppyIO.cpp: the bytes of a file, read and written at an offset. A stream
-- that has failed does nothing any more; a read behind the end of the file makes it fail.
use libcernvm.Prelude.{
  ℕ, zero, suc, ◌+◌, ◌-◌, ◌≤◌, ◌≡◌, refl, ap, Bool, [], ◌∷◌, ◌++◌, Option, none, some, arith,
  if◌then◌else◌, length, take, drop, replicate, ltb, ◌==◌, length-replicate, length-append,
  length-drop, append-nil, ◌∙◌,
}
use libcernvm.Prelude.Member.{mem}
use libcernvm.Prelude.Keys.{Bytes}
use libcernvm.Ipc.Blocks.{take-append, drop_all}

pub record Stream : Type 0 where
  pub bytes : Bytes
  pub failed : Bool

-- Bytes written over a file, which grows where it is too short.
unfoldable pub overwrite : ℕ → Bytes → Bytes → Bytes
overwrite zero bs file = bs ++ drop (length bs) file
overwrite (suc o) bs [] = 0 ∷ overwrite o bs []
overwrite (suc o) bs (x ∷ file) = x ∷ overwrite o bs file

unfoldable pub part : ℕ → ℕ → Bytes → Bytes
part n o file = take n (drop o file)

-- seekp and write
unfoldable pub write_at : ℕ → Bytes → Stream → Stream
write_at o bs s = if s.failed then s else record s { bytes = overwrite o bs s.bytes }

-- seekg and read, into a buffer of zeros
unfoldable pub read_at : ℕ → ℕ → Stream → Bytes × Stream
read_at n o s =
    let got = part n o s.bytes in
    if s.failed
    then (replicate n 0, s)
    else (got ++ replicate (n - length got) 0, record s { failed = ltb (length got) n })

unfoldable pub until_nul : Bytes → Bytes
until_nul [] = []
until_nul (b ∷ bs) = if b == 0 then [] else b ∷ until_nul bs

-- A std::string made of a buffer as a C string.
unfoldable pub c_string : Bytes → Option Bytes
c_string buffer = if mem 0 buffer then some (until_nul buffer) else none

pub length-overwrite :
    (o : ℕ) (bs file : Bytes)
    → o + length bs ≤ length file
    → length (overwrite o bs file) ≡ length file
unfolding overwrite
length-overwrite zero bs file h =
    omega (arith, length-append bs (drop (length bs) file), length-drop (length bs) file)
length-overwrite (suc o) bs [] h = absurd (omega arith)
length-overwrite (suc o) bs (x ∷ file) h = ap suc (length-overwrite o bs file (omega arith))

pub part-overwrite_self : (o : ℕ) (bs file : Bytes) → part (length bs) o (overwrite o bs file) ≡ bs
unfolding part overwrite
part-overwrite_self zero bs file = take-append bs (drop (length bs) file)
part-overwrite_self (suc o) bs [] = part-overwrite_self o bs []
part-overwrite_self (suc o) bs (x ∷ file) = part-overwrite_self o bs file

pub part-overwrite_before :
    (n o at : ℕ) (bs file : Bytes)
    → o + n ≤ at
    → at ≤ length file
    → part n o (overwrite at bs file) ≡ part n o file
unfolding part overwrite
part-overwrite_before zero o at bs file h fits = refl
part-overwrite_before (suc n) o zero bs file h fits = absurd (omega arith)
part-overwrite_before (suc n) o (suc at) bs [] h fits = absurd (omega arith)
part-overwrite_before (suc n) zero (suc at) bs (x ∷ file) h fits =
    ap (◌∷◌ x) (part-overwrite_before n zero at bs file (omega arith) (omega arith))
part-overwrite_before (suc n) (suc o) (suc at) bs (x ∷ file) h fits =
    part-overwrite_before (suc n) o at bs file (omega arith) (omega arith)

pub part-overwrite_after :
    (n o at : ℕ) (bs file : Bytes)
    → at + length bs ≤ o
    → part n o (overwrite at bs file) ≡ part n o file
unfolding part overwrite
part-overwrite_after n o zero bs file h = ap (take n) (skip o bs file (omega arith))
  where
    skip :
        (o : ℕ) (bs file : Bytes)
        → length bs ≤ o
        → drop o (bs ++ drop (length bs) file) ≡ drop o file
    skip o [] file h = refl
    skip zero (b ∷ bs) file h = absurd (omega arith)
    skip (suc o) (b ∷ bs) [] h = rw (append-nil bs) (drop_all bs o (omega arith))
    skip (suc o) (b ∷ bs) (x ∷ file) h = skip o bs file (omega arith)
part-overwrite_after n zero (suc at) bs file h = absurd (omega arith)
part-overwrite_after n (suc o) (suc at) bs [] h =
    part-overwrite_after n o at bs [] (omega arith) ∙ ap (take n) (drop_all [] o (omega arith))
part-overwrite_after n (suc o) (suc at) bs (x ∷ file) h =
    part-overwrite_after n o at bs file (omega arith)

pub length-part : (n o : ℕ) (file : Bytes) → o + n ≤ length file → length (part n o file) ≡ n
unfolding part
length-part zero o file h = refl
length-part (suc n) o [] h = absurd (omega arith)
length-part (suc n) zero (x ∷ file) h = ap suc (length-part n zero file (omega arith))
length-part (suc n) (suc o) (x ∷ file) h = length-part (suc n) o file (omega arith)

pub until_nul-zeros : (n : ℕ) → until_nul (replicate n 0) ≡ []
unfolding until_nul
until_nul-zeros zero = refl
until_nul-zeros (suc n) = ground arith

pub overwrite-wiped :
    (n : ℕ) (img : Bytes) → length img ≤ n → overwrite 0 (replicate n 0) img ≡ replicate n 0
unfolding overwrite
overwrite-wiped n img h =
    ap (◌++◌ (replicate n 0)) (drop_all img (length (replicate n 0)) short)
    ∙ append-nil (replicate n 0)
  where
    zeros : Bytes
    zeros = replicate n 0

    filled : length zeros ≡ n
    filled = length-replicate n 0

    short : length img ≤ length zeros
    short = omega (arith, h, filled)

pub part-zeros : (n o k : ℕ) → o + n ≤ k → part n o (replicate k 0) ≡ replicate n 0
unfolding part
part-zeros zero o k h = refl
part-zeros (suc n) o zero h = absurd (omega arith)
part-zeros (suc n) zero (suc k) h = ap (◌∷◌ 0) (part-zeros n zero k (omega arith))
part-zeros (suc n) (suc o) (suc k) h = part-zeros (suc n) o k (omega arith)
