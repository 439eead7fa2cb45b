-- ===== src/ContextIso/Contents.antt =====
-- What a reader finds in the images of src/contextiso.cpp.
use libcernvm.Prelude.{
  ℕ, ◌+◌, ◌*◌, ◌/◌, ◌%◌, ◌≤◌, ◌<◌, ◌≡◌, refl, sym, ap, ◌∙◌, [], ◌∷◌, ◌++◌, Option, none, some, inl,
  inr, arith, if◌then◌else◌, length, take, Bool-cases, true,
}
use libcernvm.Prelude.Keys.{Bytes, bytes_beq, bytes_beq_iff}
use libcernvm.Prelude.Binds.{◌>>=◌}
use libcernvm.ContextIso.{
  Disk, Tm, date_fits, overlay, bytes_at, isosetl, data_size, name_byte, store_name, end_name,
  put_name, file_record, context_sh, descriptors, headers, build_simple_cdrom,
}
use libcernvm.Ipc.Blocks.{length-take}
use libcernvm.ContextIso.Tables.{context_sh_struct}
use libcernvm.ContextIso.Dates.{IsTime, year-date_fits}
use libcernvm.ContextIso.Reader.{number_at, find_record, read_file}
use libcernvm.ContextIso.Fields.{
  isosetl-number, data_size-le, data_size-le_size, primary_root, unnamed, put_name-keeps,
  put_contents-fits, headers_root, data_size-take,
}
use libcernvm.ContextIso.Layout.{Layout, find_record-Layout}
use libcernvm.ContextIso.Overlays.{
  overlay-below, overlay-bytes_at, bytes_at-below, bytes_at-overlay,
}

number_of : Bytes → ℕ
number_of (a ∷ b ∷ c ∷ d ∷ []) = a + 256 * b + 65536 * c + 16777216 * d
number_of _ = 0

number_at-root : (m : Disk) → bytes_at m 32926 4 ≡ 23 ∷ 0 ∷ 0 ∷ 0 ∷ [] → number_at m 32926 ≡ 23
unfolding number_at bytes_at number_of
number_at-root m h = ap number_of h

build-Layout :
    (n : ℕ) (p r : Disk) (text : Bytes)
    → ((k : ℕ) → k < 33 → r k ≡ unnamed n k)
    → Layout (overlay 49152 text (headers p r)) (bytes_at r 33 12)
unfolding descriptors headers overlay bytes_at isosetl
build-Layout n p r text same =
    let m = headers p r in
    let below : (k : ℕ) → k < 49152 → overlay 49152 text m k ≡ m k =
      λ k low. overlay-below 49152 text m k low in
    record {
      self_size = below 47104 (omega arith);
      self_room = below 47136 (omega arith);
      self_name = bytes_at-below 49152 text m 47137 1 (omega arith);
      parent_size = below 47138 (omega arith);
      parent_room = below 47170 (omega arith);
      parent_name = bytes_at-below 49152 text m 47171 1 (omega arith);
      file_size = below 47172 (omega arith) ∙ same 0 (omega arith);
      file_room = below 47204 (omega arith) ∙ same 32 (omega arith);
      file_name = bytes_at-below 49152 text m 47205 12 (omega arith);
      end = below 47218 (omega arith);
    }

number_at-of :
    (m : Disk) (place a b c d : ℕ)
    → m place ≡ a
    → m (place + 1) ≡ b
    → m (place + 2) ≡ c
    → m (place + 3) ≡ d
    → number_at m place ≡ a + 256 * b + 65536 * c + 16777216 * d
unfolding number_at
number_at-of m place a b c d h0 h1 h2 h3 = omega (arith, h0, h1, h2, h3)

record_at :
    (p r : Disk) (text : Bytes) (k : ℕ)
    → k < 45
    → overlay 49152 text (headers p r) (47172 + k) ≡ r k
unfolding headers
record_at p r text k h =
    overlay-below 49152 text (headers p r) (47172 + k) (omega (arith, h))
    ∙ overlay-bytes_at 47172 0 45 k r (overlay 47104 context_sh_struct (descriptors p)) h
    ∙ ap r (omega arith)

-- The numbers of the record of the file
file_numbers :
    (n : ℕ) (p r : Disk) (text : Bytes)
    → ((k : ℕ) → k < 33 → r k ≡ unnamed n k)
    → (number_at (overlay 49152 text (headers p r)) 47174 ≡ 24)
      × (number_at (overlay 49152 text (headers p r)) 47182 ≡ data_size n)
unfolding overlay isosetl
file_numbers n p r text same =
    let m = overlay 49152 text (headers p r) in
    let s = data_size n in
    let is : (k : ℕ) → k < 33 → m (47172 + k) ≡ unnamed n k =
      λ k low. record_at p r text k (omega (arith, low)) ∙ same k low in
    (
      number_at-of m 47174 24 0 0 0 (is 2 (omega arith)) (is 3 (omega arith)) (is 4 (omega arith))
          (is 5 (omega arith)),
      number_at-of m 47182 (s % 256) ((s / 256) % 256) ((s / 65536) % 256) ((s / 16777216) % 256)
            (is 10 (omega arith)) (is 11 (omega arith)) (is 12 (omega arith)) (is 13 (omega arith))
          ∙ isosetl-number s (omega (arith, data_size-le n)),
    )

read_file-Layout :
    (m : Disk) (stored name text : Bytes)
    → Layout m stored
    → 1 < length name
    → number_at m 32926 ≡ 23
    → number_at m 47174 ≡ 24
    → bytes_at m 49152 (number_at m 47182) ≡ text
    → read_file m name ≡ (if bytes_beq stored name then some text else none)
unfolding read_file
read_file-Layout m stored name text layout long root sector read =
    let content : ℕ → Option Bytes =
      λ place. some (bytes_at m (number_at m (place + 2) * 2048) (number_at m (place + 10))) in
    ap (λ s. find_record 60 m (s * 2048) name >>= content) root
    ∙ ap (λ o. o >>= content) (find_record-Layout m stored name layout long)
    ∙ elim (Bool-cases (bytes_beq stored name)) [
      | inl same ↦
          ap (λ b. (if b then some 47172 else none) >>= content) same
          ∙ ap (λ s. some (bytes_at m (s * 2048) (number_at m 47182))) sector
          ∙ ap some read
          ∙ sym (ap (λ b. if b then some text else none) same)
      | inr other ↦
          ap (λ b. (if b then some 47172 else none) >>= content) other
          ∙ sym (ap (λ b. if b then some text else none) other)
    ]

pub build_lem :
    (now : Tm) (volume_id filename buffer : Bytes) (size : ℕ)
    → date_fits now ≡ true
    → size ≤ length buffer
    → (m r : Disk) × (build_simple_cdrom now volume_id filename buffer size ≡ some m)
      × (file_record filename size ≡ some r)
      × ((name : Bytes)
          → 1 < length name
          → read_file m name ≡ (
              if bytes_beq (bytes_at r 33 12) name
              then some (take 309248 (take size buffer))
              else none))
unfolding build_simple_cdrom file_record read_file
build_lem now volume_id filename buffer size dates h =
    let (p, is_p, root) = primary_root now volume_id size dates in
    let (r, is_r, same) = put_name-keeps 0 filename (unnamed size) (omega arith) in
    let text = take (data_size size) buffer in
    let m = overlay 49152 text (headers p r) in
    let layout = build-Layout size p r text same in
    (
      m,
      r,
      rw is_p (rw is_r (put_contents-fits size buffer (headers p r) h)),
      is_r,
      λ name long.
          read_file-Layout m (bytes_at r 33 12) name (take 309248 (take size buffer)) layout long
            (number_at-root m (
              bytes_at-below 49152 text (headers p r) 32926 4 (omega arith)
              ∙ headers_root p r
              ∙ root))
            (file_numbers size p r text same).0
            (ap (bytes_at m 49152) (
                (file_numbers size p r text same).1
                ∙ sym (
                    length-take (data_size size) buffer (omega (arith, h, data_size-le_size size))))
              ∙ bytes_at-overlay 49152 text (headers p r)
              ∙ data_size-take size buffer),
    )

or_blank : Option Disk → Disk
or_blank none = λ i. 0
or_blank (some m) = m

context_sh_name :
    (n : ℕ) → bytes_at (or_blank (file_record context_sh n)) 33 12 ≡ context_sh ++ (59 ∷ 49 ∷ [])
unfolding or_blank file_record put_name store_name end_name name_byte overlay bytes_at
context_sh_name n = refl

-- At a time whose fields are in the ranges of gmtime and whose year has at most four digits, whatever the
-- volume: build_simple_cdrom of CONTEXT.SH stays within its buffers, that of the date included, when the
-- buffer holds as many bytes as it is told, and a reader of the image finds in CONTEXT.SH;1 those bytes,
-- the first 309248 of them.
pub read_file-build_simple_cdrom :
    (now : Tm) (volume_id buffer : Bytes) (size : ℕ)
    → IsTime now
    → now.year < 10000
    → size ≤ length buffer
    → (m : Disk) × (build_simple_cdrom now volume_id context_sh buffer size ≡ some m)
      × (read_file m (context_sh ++ (59 ∷ 49 ∷ [])) ≡ some (take 309248 (take size buffer)))
unfolding or_blank
read_file-build_simple_cdrom now volume_id buffer size time year h =
    let (m, r, built, is_r, reads) =
      build_lem now volume_id context_sh buffer size (year-date_fits now time year) h in
    let name = context_sh ++ (59 ∷ 49 ∷ []) in
    let text = take 309248 (take size buffer) in
    let named : bytes_at r 33 12 ≡ name =
      (sym (ap (λ o. bytes_at (or_blank o) 33 12) is_r)) ∙ context_sh_name size in
    (
      m,
      built,
      reads name (omega arith)
          ∙ ap (λ b. if b then some text else none)
              ((bytes_beq_iff (bytes_at r 33 12) name).1 named),
    )
