-- ===== src/ContextIso/Dates.antt =====
-- The date that src/contextiso.cpp prints into an image.
use libcernvm.Prelude.{
  ℕ, suc, ◌+◌, ◌-◌, ◌/◌, ◌%◌, ◌≤◌, ◌<◌, ◌≡◌, true, inl, inr, arith, ltb, length, ◌++◌, [], ◌∷◌,
  length-append, length-replicate, replicate, Bool-cases,
}
use libcernvm.Prelude.Keys.{Bytes}
use libcernvm.Utilities.Numbers.{decimal}
use libcernvm.ContextIso.{Tm, padded, date_now, date_fits}

-- The fields but the year are what gmtime promises.
abbrev pub IsTime : Tm → Type 0
IsTime now = (now.mon < 12) × (now.mday < 32) × (now.hour < 24) × (now.min < 60) × (now.sec < 61)

length-decimal_one : (places n : ℕ) → n < 10 → length (decimal (suc places) n) ≡ 1
unfolding decimal
length-decimal_one places n h = ground (arith, h)

length-decimal_more :
    (places n w : ℕ)
    → length (decimal places (n / 10)) ≤ w
    → length (decimal (suc places) n) ≤ suc w
unfolding decimal
length-decimal_more places n w h = elim (Bool-cases (ltb n 10)) [
  | inl one ↦ rw one (omega arith)
  | inr more ↦
      rw more (omega (arith, h, length-append (decimal places (n / 10)) ((b'0' + n % 10) ∷ [])))
]

length-decimal_two : (places n : ℕ) → n < 100 → length (decimal (suc (suc places)) n) ≤ 2
length-decimal_two places n h =
    length-decimal_more (suc places) n 1
      (omega (arith, length-decimal_one places (n / 10) (omega (arith, h))))

length-decimal_four :
    (places n : ℕ) → n < 10000 → length (decimal (suc (suc (suc (suc places)))) n) ≤ 4
length-decimal_four places n h = length-decimal_more (suc (suc (suc places))) n 3 (
    length-decimal_more (suc (suc places)) (n / 10) 2
      (length-decimal_two places (n / 10 / 10) (omega (arith, h))))

length-padded : (w n : ℕ) → length (decimal 10 n) ≤ w → length (padded w n) ≡ w
unfolding padded
length-padded w n h =
    let digits = decimal 10 n in
    let zeros : length (replicate {A = ℕ} (w - length digits) 48) ≡ w - length digits =
      length-replicate (w - length digits) 48 in
    omega (arith, h, zeros, length-append (replicate (w - length digits) 48) digits)

length-two : (n : ℕ) (s : Bytes) → n < 100 → length (padded 2 n ++ s) ≡ 2 + length s
length-two n s h =
    omega (arith, length-append (padded 2 n) s, length-padded 2 n (length-decimal_two 8 n h))

-- A time with a year of at most four digits stays within dateNow.
pub year-date_fits : (now : Tm) → IsTime now → now.year < 10000 → date_fits now ≡ true
unfolding date_fits date_now
year-date_fits now (mon, mday, hour, min, sec) year =
    let s5 = padded 2 now.sec ++ (48 ∷ 48 ∷ 48 ∷ []) in
    let s4 = padded 2 now.min ++ s5 in
    let s3 = padded 2 now.hour ++ s4 in
    let s2 = padded 2 now.mday ++ s3 in
    let s1 = padded 2 now.mon ++ s2 in
    let size : length (padded 4 now.year ++ s1) ≡ 17 = omega (
      arith,
      length-append (padded 4 now.year) s1,
      length-padded 4 now.year (length-decimal_four 6 now.year year),
      length-two now.mon s2 (omega (arith, mon)),
      length-two now.mday s3 (omega (arith, mday)),
      length-two now.hour s4 (omega (arith, hour)),
      length-two now.min s5 (omega (arith, min)),
      length-two now.sec (48 ∷ 48 ∷ 48 ∷ []) (omega (arith, sec)),
    ) in
    ground (arith, size)
