-- ===== src/Hypervisor/Downloads.antt =====
-- The downloads of src/Hypervisor.cpp, with their checksums. The download provider, the SHA-256 sum
-- and the decompression are parameters; reports of progress are left out.
pub mod Checked
pub mod Zipped
use libcernvm.Prelude.Texts.{codes}
use libcernvm.Prelude.{
  ℕ, zero, suc, ◌≡◌, Bool, true, false, not, ◌&&◌, [], ◌∷◌, ◌++◌, Option, none, some, if◌then◌else◌,
  length, take, ltb, leb,
}
use libcernvm.Prelude.Keys.{Bytes, bytes_key, bytes_beq}
use libcernvm.Prelude.Member.{all_of}
use libcernvm.StdMap
use libcernvm.StdMap.{Map, is_some}
use libcernvm.LocalConfig.File.{break_at}
use libcernvm.Floppy.Image.{until_nul}

-- The files by their names, and how many downloads were asked for.
pub record Files : Type 0 where
  pub on_disk : Map Bytes Bytes
  pub calls : ℕ

-- What the downloads stand on: the provider, which answers whether the download went well and leaves
-- a file or none, by the number of the call and the address; the sum of a file, in hexadecimal; and
-- what a compressed file holds.
pub record Services : Type 0 where
  pub fetch : ℕ → Bytes → Bool × Option Bytes
  pub sha256 : Bytes → Bytes
  pub gunzip : Bytes → Option Bytes

-- CHECKSUM_LENGTH
abbrev pub checksum_length : ℕ
checksum_length = 64

unfoldable pub file_exists : Bytes → Files → Bool
file_exists path s = is_some (StdMap.find path s.on_disk)

unfoldable pub remove : Bytes → Files → Files
remove path s = record s { on_disk = StdMap.erase path s.on_disk }

unfoldable pub write_file : Bytes → Bytes → Files → Files
write_file path content s = record s { on_disk = StdMap.assign path content s.on_disk }

-- The address and the file that it is stored in.
unfoldable pub download : Services → Bytes → Bytes → Files → Bool × Files
download services url path s =
    let (ok, content) = services.fetch s.calls url in
    let s' = record s { calls = suc s.calls } in
    elim content [ none ↦ (ok, s') | some bytes ↦ (ok, write_file path bytes s') ]

-- A file is downloaded unless it is there; a download that fails leaves no file.
unfoldable pub obtain : Services → Bytes → Bytes → Files → Bool × Files
obtain services url path s =
    let (ok, s') = download services url path s in
    if file_exists path s then (true, s) else if ok then (true, s') else (false, remove path s')

unfoldable pub sum_of : Services → Bytes → Files → Option Bytes
sum_of services path s = elim (StdMap.find path s.on_disk) [
  | none ↦ none
  | some bytes ↦ some (services.sha256 bytes)
]

unfoldable pub has_sum : Services → Bytes → Bytes → Files → Bool
has_sum services sum path s = elim (sum_of services path s) [
  | none ↦ false
  | some found ↦ bytes_beq found sum
]

-- The loop of __downloadFile: whether the file is in place.
unfoldable pub file_loop : Services → Bytes → Bytes → Bytes → ℕ → Files → Bool × Files
file_loop services url path sum zero s = (false, s)
file_loop services url path sum (suc left) s =
    let (ok, s') = obtain services url path s in
    let here = file_exists path s' in
    let s'' = if ok && here && not (has_sum services sum path s') then remove path s' else s' in
    let rest = file_loop services url path sum left s'' in
    if ok && here && has_sum services sum path s' then (true, s') else rest

-- __downloadFile; `false` is HVE_IO_ERROR.
unfoldable pub download_checked : Services → Bytes → Bytes → Bytes → ℕ → Files → Bool × Files
download_checked services url path sum retries s =
    let (ok, s') = file_loop services url path sum retries s in
    if ok then (true, s') else (false, remove path s')

-- The first line of the checksum file, as `getline` into a buffer of 65 characters reads it
-- and a C string holds it.
unfoldable pub checksum_line : Bytes → Bytes
checksum_line content = until_nul (take checksum_length (break_at b'\n' content).0)

unfoldable pub is_hex : ℕ → Bool
is_hex c = if ltb c b'a' then leb b'0' c && leb c b'9' else leb c b'f'

-- The loop of __downloadChecksum: `none` when the rounds given to it are used up, which `goto` makes
-- more than the retries; inside, the sum when it is in place.
unfoldable pub checksum_loop :
    ℕ → Services → Bytes → Bytes → ℕ → Files → Option (Option Bytes × Files)
checksum_loop zero services url path left s = none
checksum_loop (suc fuel) services url path zero s = some (none, s)
checksum_loop (suc fuel) services url path (suc left) s =
    let (ok, s') = obtain services url path s in
    elim (ok && file_exists path s') [
      | false ↦ checksum_loop fuel services url path left s'
      | true ↦ elim (StdMap.find path s'.on_disk) [
        | none ↦ some (none, s')
        | some content ↦ elim (ltb (length (checksum_line content)) checksum_length) [
          | true ↦ checksum_loop fuel services url path left (remove path s')
          | false ↦ elim (all_of (checksum_line content) is_hex) [
            | true ↦ some (some (checksum_line content), s')
            | false ↦ checksum_loop fuel services url path (suc left) (remove path s')
          ]
        ]
      ]
    ]

unfoldable pub download_checksum :
    ℕ → Services → Bytes → Bytes → ℕ → Files → Option (Option Bytes × Files)
download_checksum fuel services url path retries s =
    elim (checksum_loop fuel services url path retries s) [
      | none ↦ none
      | some (sum, s') ↦ some (sum, if is_some sum then s' else remove path s')
    ]

-- The name of the file in the cache.
unfoldable pub cache_name : Services → Bytes → Bytes → Bytes → Bytes
cache_name services dir_data url filename =
    dir_data ++ (codes "/cache/" ++ (services.sha256 url ++ (b'-' ∷ filename)))

-- downloadFile, with the name that getURLFilename makes: the name of the file, if it is in place.
unfoldable pub download_file :
    Services → Bytes → Bytes → Bytes → Bytes → ℕ → Files → Option Bytes × Files
download_file services dir_data url filename sum retries s =
    let path = cache_name services dir_data url filename in
    let (ok, s') = download_checked services url path sum retries s in
    (if ok then some path else none, s')

-- downloadFileURL, whose sum is downloaded first.
unfoldable pub download_file_url :
    ℕ → Services → Bytes → Bytes → Bytes → Bytes → ℕ → Files → Option (Option Bytes × Files)
download_file_url fuel services dir_data url sum_url filename retries s =
    let path = cache_name services dir_data url filename in
    let sum_path = path ++ (codes ".sha256") in
    elim (download_checksum fuel services sum_url sum_path retries s) [
      | none ↦ none
      | some (none, s') ↦ some (none, s')
      | some (some sum, s') ↦
          let (ok, s'') = download_checked services url path sum retries s' in
          some (if ok then some path else none, s'')
    ]
