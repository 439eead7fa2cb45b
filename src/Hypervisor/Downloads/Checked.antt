-- ===== src/Hypervisor/Downloads/Checked.antt =====
-- A file that a download of src/Hypervisor.cpp answers with has its checksum.
use libcernvm.Prelude.{
  ℕ, zero, suc, ◌≡◌, refl, sym, ap, ◌∙◌, true, false, not, ◌&&◌, none, some, inl, inr, ◌⊎◌, arith,
  if◌then◌else◌, Bool-cases, Option-cases,
}
use libcernvm.Prelude.Keys.{Bytes, bytes_key, bytes_beq_iff}
use libcernvm.StdMap
use libcernvm.StdMap.{Map, is_some}
use libcernvm.Hypervisor.Downloads.{
  Files, Services, file_exists, remove, obtain, sum_of, has_sum, file_loop, download_checked,
  cache_name, download_file,
}

-- The file is there and has the sum.
unfoldable pub HasSum : Services → Bytes → Bytes → Files → Type 0
HasSum services sum path s =
    (bytes : Bytes) × (StdMap.find path s.on_disk ≡ some bytes) × (services.sha256 bytes ≡ sum)

pub has_sum→HasSum :
    (services : Services) (sum path : Bytes) (s : Files)
    → has_sum services sum path s ≡ true
    → HasSum services sum path s
unfolding has_sum sum_of HasSum
has_sum→HasSum services sum path s h = elim (Option-cases (StdMap.find path s.on_disk)) [
  | inl gone ↦ absurd (ground (arith, h, gone))
  | inr (bytes, here) ↦
      (bytes, here, (bytes_beq_iff (services.sha256 bytes) sum).0 (ground (arith, h, here)))
]

file_loop-HasSum :
    (services : Services) (url path sum : Bytes) (retries : ℕ) (s : Files)
    → (file_loop services url path sum retries s).0 ≡ true
    → HasSum services sum path (file_loop services url path sum retries s).1
unfolding file_loop
file_loop-HasSum services url path sum zero s h = absurd (ground arith)
file_loop-HasSum services url path sum (suc left) s h =
    let r = obtain services url path s in
    let here = r.0 && file_exists path r.1 in
    let next = if here && not (has_sum services sum path r.1) then remove path r.1 else r.1 in
    let rest = file_loop services url path sum left next in
    elim (Bool-cases (here && has_sum services sum path r.1)) [
      | inl done ↦ rw done (has_sum→HasSum services sum path r.1 (ground (arith, done)))
      | inr more ↦ rw more (
          file_loop-HasSum services url path sum left next
            (ap (λ b. (if b then (true, r.1) else rest).0) (sym more) ∙ h))
    ]

pub find-remove : (path : Bytes) (s : Files) → StdMap.find path (remove path s).on_disk ≡ none
unfolding remove
find-remove path s = ground (arith, StdMap.find-erase path path s.on_disk, bytes_beq_iff path path)

file_exists-remove : (path : Bytes) (s : Files) → file_exists path (remove path s) ≡ false
unfolding file_exists
file_exists-remove path s = rw (find-remove path s) refl

pub download_checked-HasSum :
    (services : Services) (url path sum : Bytes) (retries : ℕ) (s : Files)
    → (((download_checked services url path sum retries s).0 ≡ true)
        × HasSum services sum path (download_checked services url path sum retries s).1)
      ⊎ (((download_checked services url path sum retries s).0 ≡ false)
          × (file_exists path (download_checked services url path sum retries s).1 ≡ false))
unfolding download_checked
download_checked-HasSum services url path sum retries s =
    let r = file_loop services url path sum retries s in
    elim (Bool-cases r.0) [
      | inl done ↦ rw done (inl (refl, file_loop-HasSum services url path sum retries s done))
      | inr failed ↦ rw failed (inr (refl, file_exists-remove path r.1))
    ]

-- downloadFile answers with a name only when the file is there and its sum is the one that was asked
-- for, whether it was there before or came by one of the downloads; and otherwise the file is not
-- there. This holds for every download provider and every number of retries.
pub download_file-HasSum :
    (services : Services) (dir_data url filename sum : Bytes) (retries : ℕ) (s : Files)
    → (((download_file services dir_data url filename sum retries s).0
          ≡ some (cache_name services dir_data url filename))
        × HasSum services sum
            (cache_name services dir_data url filename)
            (download_file services dir_data url filename sum retries s).1)
      ⊎ (((download_file services dir_data url filename sum retries s).0 ≡ none)
          × (file_exists
                (cache_name services dir_data url filename)
                (download_file services dir_data url filename sum retries s).1
              ≡ false))
unfolding download_file
download_file-HasSum services dir_data url filename sum retries s =
    let path = cache_name services dir_data url filename in
    let r = download_checked services url path sum retries s in
    elim (download_checked-HasSum services url path sum retries s) [
      | inl (done, there) ↦ inl (rw done refl, there)
      | inr (failed, gone) ↦ inr (rw failed refl, gone)
    ]
