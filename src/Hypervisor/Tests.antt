-- ===== src/Hypervisor/Tests.antt =====
-- Downloads, sessions and versions at work.
use libcernvm.Prelude.Texts.{codes}
use libcernvm.Prelude.{
  ℕ, zero, arith, ◌≡◌, Bool, true, false, [], ◌∷◌, ◌++◌, Option, none, some, ◌⊎◌, length,
}
use libcernvm.Prelude.Keys.{Bytes, bytes_key}
use libcernvm.StdMap
use libcernvm.Parameters.{Entries, Store, instance_root, get}
use libcernvm.Hypervisor.Downloads.{Files, Services, file_exists, download_file, cache_name}
use libcernvm.Hypervisor.Downloads.Checked.{HasSum, download_file-HasSum}
use libcernvm.Hypervisor.Downloads.Zipped.{extracted_name}
use libcernvm.Hypervisor.Codes.{hve_ok}
use libcernvm.Utilities.Base64.{base64_decode}
use libcernvm.ContextIso.{Tm, Disk, context_sh}
use libcernvm.ContextIso.Reader.{read_file}
use libcernvm.Hypervisor.Context.{
  context_start, context_end, build_context_iso, read_file-build_context_iso,
}
use libcernvm.Hypervisor.Sessions.{Instance, session_open}
use libcernvm.Hypervisor.Sessions.Defaults.{name_key, secret_key, crypto_salt}
use libcernvm.Hypervisor.Sessions.Guarded.{Guarded, session_open-Guarded}

-- Downloads that fail once, sums that are one byte, and files that are wrapped in a byte.
abbrev fetch_later : ℕ → Bytes → Bool × Option Bytes
fetch_later zero url = (false, none)
fetch_later _ url = (true, some (1 ∷ 2 ∷ 3 ∷ []))

abbrev unwrap : Bytes → Option Bytes
unwrap [] = none
unwrap (b ∷ bs) = some bs

abbrev services : Services
services = record { fetch = fetch_later; sha256 = λ bs. length bs ∷ []; gunzip = unwrap }

abbrev nothing_stored : Files
nothing_stored = record { on_disk = []; calls = 0 }

abbrev zip_name : Bytes
zip_name = codes "a.gz"

abbrev zip_path : Bytes
zip_path = cache_name services [] (b'u' ∷ []) zip_name

download_file-HasSum_example :
    (((download_file services [] (b'u' ∷ []) zip_name (3 ∷ []) 4 nothing_stored).0 ≡ some zip_path)
      × HasSum services
          (3 ∷ [])
          zip_path
          (download_file services [] (b'u' ∷ []) zip_name (3 ∷ []) 4 nothing_stored).1)
    ⊎ (((download_file services [] (b'u' ∷ []) zip_name (3 ∷ []) 4 nothing_stored).0 ≡ none)
        × (file_exists zip_path
              (download_file services [] (b'u' ∷ []) zip_name (3 ∷ []) 4 nothing_stored).1
            ≡ false))
download_file-HasSum_example =
    download_file-HasSum services [] (b'u' ∷ []) zip_name (3 ∷ []) 4 nothing_stored

abbrev plain_path : Bytes
plain_path = cache_name services [] (b'u' ∷ []) (extracted_name zip_name)

abbrev flush : Entries → ℕ → ℕ
flush m n = n

abbrev wanted : Entries
wanted = (name_key, codes "vm") ∷ (secret_key, b's' ∷ []) ∷ []

abbrev config : Store ℕ
config = record { entries = []; world = 0 }

abbrev no_sessions : Instance ℕ
no_sessions = record { sessions = []; open_sessions = [] }

session_open-Guarded_example :
    Guarded flush
      (λ bs. bs)
      (get instance_root wanted name_key [] false)
      (crypto_salt ++ get instance_root wanted secret_key [] false)
      no_sessions
      (session_open flush (λ bs. bs) instance_root wanted (b'1' ∷ []) config no_sessions)
session_open-Guarded_example =
    session_open-Guarded flush (λ bs. bs) instance_root wanted (b'1' ∷ []) config no_sessions

abbrev noon : Tm
noon = record { year = 2013; mon = 5; mday = 6; hour = 12; min = 0; sec = 0 }

abbrev user_data : Bytes
user_data = codes "hi"

read_file-build_context_iso_example :
    (m : Disk) × (code : Bytes) × (build_context_iso noon user_data user_data true
      ≡ some (hve_ok, some (user_data, m)))
    × (read_file m (context_sh ++ (59 ∷ 49 ∷ [])) ≡ some (context_start ++ (code ++ context_end)))
    × (base64_decode code ≡ some user_data)
read_file-build_context_iso_example =
    read_file-build_context_iso noon user_data user_data
      (omega arith, omega arith, omega arith, omega arith, omega arith) (omega arith)
      (omega arith, (omega arith, tt)) (omega arith)
