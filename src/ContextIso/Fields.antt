-- ===== src/ContextIso/Fields.antt =====
-- The parts that src/contextiso.cpp makes an image from: what they hold, and that they fit.
use libcernvm.Prelude.{
  ℕ, zero, suc, ◌+◌, ◌-◌, ◌*◌, ◌/◌, ◌%◌, ◌≤◌, ◌<◌, ◌≡◌, refl, sym, ap, ◌∙◌, true, [], ◌∷◌, none,
  some, inl, inr, arith, if◌then◌else◌, leb, ltb, length, take, length-take as length-take_min,
  replicate, Bool-cases, ltb→lt,
}
use libcernvm.Prelude.Keys.{Bytes}
use libcernvm.ContextIso.{
  Disk, Tm, overlay, copy_into, bytes_at, isosetl, date_now, date_fits, dated, data_size, primary,
  name_byte, store_name, end_name, put_name, put_contents, descriptors, headers,
}
use libcernvm.Ipc.Blocks.{take_all}
use libcernvm.ContextIso.Tables.{context_sh_struct, primary_descriptor, libcontextiso_app}
use libcernvm.ContextIso.Overlays.{overlay-below, bytes_at-below, bytes_at-above}

pub isosetl-number :
    (x : ℕ)
    → x < 4294967296
    → x % 256
        + 256 * ((x / 256) % 256)
        + 65536 * ((x / 65536) % 256)
        + 16777216 * ((x / 16777216) % 256)
      ≡ x
isosetl-number x h = omega (arith, h)

pub data_size-le : (n : ℕ) → data_size n ≤ 309248
unfolding data_size
data_size-le n = ground arith

pub data_size-le_size : (n : ℕ) → data_size n ≤ n
unfolding data_size
data_size-le_size n = ground arith

pub copy_into-fits :
    (room place : ℕ) (s : Bytes) (m : Disk)
    → length s ≤ room
    → copy_into room place s m ≡ some (overlay place s m)
unfolding copy_into
copy_into-fits room place s m h = ground (arith, h)

length-take_le : (n : ℕ) (s : Bytes) → length (take n s) ≤ n
length-take_le n s = omega (arith, length-take_min n s)

dated_root : (now : Tm) → bytes_at (dated now) 158 4 ≡ 23 ∷ 0 ∷ 0 ∷ 0 ∷ []
unfolding dated
dated_root now =
    let date = take 17 (date_now now) in
    let first = overlay 813 date defaults in
    let second = overlay 830 date first in
    let third = overlay 864 date second in
    bytes_at-below 574 libcontextiso_app (overlay 847 (replicate 17 48) third) 158 4 (omega arith)
    ∙ bytes_at-below 847 (replicate 17 48) third 158 4 (omega arith)
    ∙ bytes_at-below 864 date second 158 4 (omega arith)
    ∙ bytes_at-below 830 date first 158 4 (omega arith)
    ∙ bytes_at-below 813 date defaults 158 4 (omega arith)
    ∙ (unfold overlay bytes_at in refl)
  where
    defaults : Disk
    defaults =
        overlay 0 primary_descriptor
          (overlay 882 (0 ∷ []) (overlay 881 (1 ∷ []) (overlay 190 (replicate 1205 32) (λ i. 0))))

pub primary_root :
    (now : Tm) (volume_id : Bytes) (size : ℕ)
    → date_fits now ≡ true
    → (p : Disk) × (primary now volume_id size ≡ some p) × (bytes_at p 158 4 ≡ 23 ∷ 0 ∷ 0 ∷ 0 ∷ [])
unfolding primary isosetl
primary_root now volume_id size dates =
    let v = take 31 volume_id in
    let m = overlay 40 (replicate 31 32) (dated now) in
    let fits = copy_into-fits 32 40 v m (omega (arith, length-take_le 31 volume_id)) in
    (
      overlay 80 (isosetl (1 + (data_size size - 1) / 2048)) (overlay 40 v m),
      rw dates (rw fits refl),
      bytes_at-above 80 (isosetl (1 + (data_size size - 1) / 2048)) (overlay 40 v m) 158 4
            (omega arith)
          ∙ bytes_at-above 40 v m 158 4 (omega (arith, length-take_le 31 volume_id))
          ∙ bytes_at-above 40 (replicate 31 32) (dated now) 158 4 (omega arith)
          ∙ dated_root now,
    )

-- The record of the file before it is named
abbrev pub unnamed : ℕ → Disk
unnamed n = overlay 10 (isosetl (data_size n)) (λ i. overlay 0 context_sh_struct (λ j. 0) (68 + i))

end_name-keeps :
    (i : ℕ) (m : Disk)
    → i ≤ 10
    → (r : Disk) × (end_name i m ≡ some r) × ((k : ℕ) → k < 33 → r k ≡ m k)
unfolding end_name store_name
end_name-keeps i m h =
    let m' = overlay (33 + i) (59 ∷ []) m in
    (
      overlay (33 + (i + 1)) (49 ∷ []) m',
      ground (arith, h),
      λ k low.
          overlay-below (33 + (i + 1)) (49 ∷ []) m' k (omega (arith, low))
          ∙ overlay-below (33 + i) (59 ∷ []) m k (omega (arith, low)),
    )

pub put_name-keeps :
    (i : ℕ) (s : Bytes) (m : Disk)
    → i ≤ 10
    → (r : Disk) × (put_name i s m ≡ some r) × ((k : ℕ) → k < 33 → r k ≡ m k)
unfolding put_name store_name
put_name-keeps i [] m h = end_name-keeps i m h
put_name-keeps i (c ∷ s) m h = elim (Bool-cases (leb 10 i)) [
  | inl long ↦ let (r, ends, same) = end_name-keeps i m h in (r, ground (arith, long, ends), same)
  | inr short ↦
      let m' = overlay (33 + i) (name_byte c ∷ []) m in
      let (r, ends, same) = put_name-keeps (suc i) s m' (ground (arith, short)) in
      (
        r,
        ground (arith, h, short, ends),
        λ k low. same k low ∙ overlay-below (33 + i) (name_byte c ∷ []) m k (omega (arith, low)),
      )
]

take-take : (k n : ℕ) (s : Bytes) → k ≤ n → take k (take n s) ≡ take k s
take-take zero n s h = refl
take-take (suc k) zero s h = absurd (omega (arith, h))
take-take (suc k) (suc n) [] h = refl
take-take (suc k) (suc n) (c ∷ s) h = ap (λ r. c ∷ r) (take-take k n s (omega (arith, h)))

take-cut : (k n : ℕ) (s : Bytes) → take (if ltb k n then k else n) s ≡ take k (take n s)
take-cut k n s = elim (Bool-cases (ltb k n)) [
  | inl more ↦ ground (arith, more, take-take k n s (omega (arith, ltb→lt k n more)))
  | inr fits ↦
      ground (arith, fits, sym (take_all (take n s) k (ground (arith, fits, length-take_le n s))))
]

pub put_contents-fits :
    (size : ℕ) (buffer : Bytes) (m : Disk)
    → size ≤ length buffer
    → put_contents (data_size size) buffer m ≡ some (overlay 49152 (take (data_size size) buffer) m)
unfolding put_contents
put_contents-fits size buffer m h =
    let n = data_size size in
    let there : leb n (length buffer) ≡ true = ground (arith, data_size-le_size size, h) in
    ap (λ b. if b then copy_into 309248 49152 (take n buffer) m else none) there
    ∙ copy_into-fits 309248 49152 (take n buffer) m
        (omega (arith, length-take_le n buffer, data_size-le size))

pub headers_root : (p r : Disk) → bytes_at (headers p r) 32926 4 ≡ bytes_at p 158 4
unfolding descriptors headers overlay bytes_at
headers_root p r = refl

pub data_size-take :
    (size : ℕ) (buffer : Bytes) → take (data_size size) buffer ≡ take 309248 (take size buffer)
unfolding data_size
data_size-take size buffer = take-cut 309248 size buffer
