-- ===== src/Hypervisor/Downloads/Zipped.antt =====
-- downloadFileGZ of src/Hypervisor.cpp: a compressed file is downloaded, its sum is checked, and it is
-- extracted beside itself.
use libcernvm.Prelude.{
  ℕ, zero, suc, ◌≡◌, Bool, true, false, not, ◌&&◌, [], ◌∷◌, Option, none, some, ◌⊎◌, if◌then◌else◌,
  ◌==◌,
}
use libcernvm.Prelude.Keys.{Bytes, bytes_key, bytes_beq}
use libcernvm.StdMap
use libcernvm.StdMap.{Map, is_some}
use libcernvm.Utilities.Text.Positions.{npos, find_text, cut}
use libcernvm.Hypervisor.Downloads.{
  Files, Services, file_exists, remove, write_file, obtain, has_sum, cache_name,
}

-- The name without `.gz` and what follows it.
unfoldable pub extracted_name : Bytes → Bytes
extracted_name filename =
    let pos = find_text (b'.' ∷ b'g' ∷ b'z' ∷ []) filename 0 in
    if pos == npos then filename else cut 0 pos filename

-- What step (2) leaves, and whether the round goes on: a wrong sum removes the file, and so does a
-- file that cannot be extracted.
unfoldable pub extract : Services → Bytes → Bytes → Bytes → Files → Bool × Files
extract services zipped plain sum s =
    if has_sum services sum zipped s
    then elim (StdMap.find zipped s.on_disk) [
      | none ↦ (false, s)
      | some bytes ↦ elim (services.gunzip bytes) [
        | none ↦ (false, remove plain (remove zipped s))
        | some content ↦ (true, remove zipped (write_file plain content s))
      ]
    ]
    else (false, remove zipped s)

-- Step (4): the extracted file alone is there.
unfoldable pub settle : Bytes → Bytes → Bool × Files → Bool × Files
settle zipped plain (good, s) = (good && (file_exists plain s && not (file_exists zipped s)), s)

-- A round of the loop: whether the file is in place.
unfoldable pub zip_round : Services → Bytes → Bytes → Bytes → Bytes → Files → Bool × Files
zip_round services url zipped plain sum s =
    let (got, s') = if file_exists plain s then (true, s) else obtain services url zipped s in
    if not got
    then (false, s')
    else settle zipped plain (
        if not (file_exists plain s') && file_exists zipped s'
        then extract services zipped plain sum s'
        else (true, s'))

unfoldable pub zip_loop : Services → Bytes → Bytes → Bytes → Bytes → ℕ → Files → Bool × Files
zip_loop services url zipped plain sum zero s = (false, s)
zip_loop services url zipped plain sum (suc left) s =
    let (done, s') = zip_round services url zipped plain sum s in
    let rest = zip_loop services url zipped plain sum left s' in if done then (true, s') else rest

-- downloadFileGZ: the name that it answers with, if it does.
unfoldable pub download_file_gz :
    Services → Bytes → Bytes → Bytes → Bytes → ℕ → Files → Option Bytes × Files
download_file_gz services dir_data url filename sum retries s =
    let zipped = cache_name services dir_data url filename in
    let plain = cache_name services dir_data url (extracted_name filename) in
    let (ok, s') = zip_loop services url zipped plain sum retries s in
    if ok then (some zipped, s') else (none, remove plain (remove zipped s'))

module _ (services : Services) (url zipped plain sum : Bytes)
    (apart : bytes_beq zipped plain ≡ false) where
  -- The extracted file holds what a file with the sum was extracted to, and that file is gone.
  IsExtracted : Files → Type 0
  IsExtracted s =
      (bytes : Bytes) × (content : Bytes) × (services.sha256 bytes ≡ sum)
      × (services.gunzip bytes ≡ some content)
      × (StdMap.find plain s.on_disk ≡ some content)
      × (StdMap.find zipped s.on_disk ≡ none)

  -- A round that starts without an extracted file.
  HasStep : Bool × Files → Type 0
  HasStep (done, s) =
      ((done ≡ true) × IsExtracted s) ⊎ ((done ≡ false) × (StdMap.find plain s.on_disk ≡ none))

-- The answer of a download, with the files behind it.
unfoldable pub AnswersGone : Services → Bytes → Bytes → Bytes → Option Bytes × Files → Type 0
AnswersGone services zipped plain sum (answer, s) =
    ((answer ≡ none) × (file_exists zipped s ≡ false) × (file_exists plain s ≡ false))
    ⊎ ((answer ≡ some zipped)
        × (file_exists zipped s ≡ false)
        × ((bytes : Bytes) × (content : Bytes) × (services.sha256 bytes ≡ sum)
            × (services.gunzip bytes ≡ some content)
            × (StdMap.find plain s.on_disk ≡ some content)))
