-- ===== src/ContextIso/Names.antt =====
-- The names of files in the images of src/contextiso.cpp.
use libcernvm.Prelude.{
  ℕ, zero, suc, true, ◌+◌, ◌≤◌, ◌≡◌, ◌≢◌, refl, ap, ◌∙◌, [], ◌∷◌, ◌++◌, none, some, inl, inr, arith,
  if◌then◌else◌, length, length-append, map, take, Bool-cases,
}
use libcernvm.Prelude.Keys.{Bytes, bytes_beq, bytes_beq_iff}
use libcernvm.ContextIso.{Disk, Tm, date_fits, bytes_at, name_byte, build_simple_cdrom}
use libcernvm.ContextIso.Reader.{read_file}
use libcernvm.ContextIso.Contents.{build_lem}

length-bytes_at : (m : Disk) (place n : ℕ) → length (bytes_at m place n) ≡ n
unfolding bytes_at
length-bytes_at m place zero = refl
length-bytes_at m place (suc n) = ap suc (length-bytes_at m (suc place) n)

length-map_names : (s : Bytes) → length (map name_byte s) ≡ length s
length-map_names [] = refl
length-map_names (c ∷ s) = ap suc (length-map_names s)

-- When the date fits its buffer, the buffer of the contents holds as many bytes as build_simple_cdrom is
-- told, and the name of the file has not exactly ten bytes, the image is built, but a reader does not find
-- the file under its name.
read_file-other_name :
    (now : Tm) (volume_id filename buffer : Bytes) (size : ℕ)
    → date_fits now ≡ true
    → size ≤ length buffer
    → length filename ≢ 10
    → (m : Disk) × (build_simple_cdrom now volume_id filename buffer size ≡ some m)
      × (read_file m (map name_byte filename ++ (59 ∷ 49 ∷ [])) ≡ none)
read_file-other_name now volume_id filename buffer size dates h other =
    let (m, r, built, is_r, reads) = build_lem now volume_id filename buffer size dates h in
    let name = map name_byte filename ++ (59 ∷ 49 ∷ []) in
    let long : length name ≡ length filename + 2 =
      length-append (map name_byte filename) (59 ∷ 49 ∷ [])
      ∙ ap (λ n. n + 2) (length-map_names filename) in
    let text = take 309248 (take size buffer) in
    (
      m,
      built,
      reads name (omega (arith, long)) ∙ elim (Bool-cases (bytes_beq (bytes_at r 33 12) name)) [
        | inl same ↦
            let eq = ap length ((bytes_beq_iff (bytes_at r 33 12) name).0 same) in
            absurd (other (omega (arith, eq, long, length-bytes_at r 33 12)))
        | inr differ ↦ ap (λ b. if b then some text else none) differ
      ],
    )
