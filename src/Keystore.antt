-- ===== src/Keystore.antt =====
-- DomainKeystore of src/DomainKeystore.cpp: the public keys of the domains, and what they validate. The
-- verification of a signature, the reading of a key and the downloads are parameters.
pub mod Updates
mod Tests
use libcernvm.Prelude.Texts.{codes}
use libcernvm.Prelude.{
  ℕ, ◌+◌, ◌≡◌, Bool, true, false, not, ◌&&◌, ◌||◌, List, [], ◌∷◌, ◌++◌, Option, none, some,
  if◌then◌else◌, is_nil, ltb, leb, ◌==◌,
}
use libcernvm.Prelude.Keys.{Bytes, bytes_key, bytes_beq}
use libcernvm.StdMap
use libcernvm.StdMap.{Map, is_some}
use libcernvm.Parameters.{Entries, Group, Store, from_map}
use libcernvm.LocalConfig.{ConfigFile}
use libcernvm.LocalConfig.File.{load_map}
use libcernvm.Hypervisor.Codes.{
  hve_ok, hve_external_error, hve_not_found, hve_not_validated, hve_usage_error,
}
use libcernvm.Utilities.Base64.{base64_decode}
use libcernvm.Utilities.Clean.{url_encode}
use libcernvm.Utilities.Text.{split_lines, tokenize}

-- CRYPTO_STORE_VALIDITY and CRYPTO_FREQUENT_THRESSHOLD, in seconds
abbrev pub store_validity : ℕ
store_validity = 86400

abbrev pub frequent_thresshold : ℕ
frequent_thresshold = 60

pub record Keystore : Type 0 where
  pub valid : Bool
  pub domain_keys : Entries
  pub last_update_timestamp : ℕ
  pub keystore_timestamp : ℕ

-- domainkeys.conf and domainkeys.dat
pub record KeyFiles : Type 0 where
  pub store : Option ConfigFile
  pub signature : Option Bytes

-- What the provider answers to the two downloads of an update, and the files that it leaves, if any.
pub record Provider : Type 0 where
  pub store_answer : ℕ
  pub store_file : Option ConfigFile
  pub signature_answer : ℕ
  pub signature_file : Option Bytes

-- The constructor
unfoldable pub new_keystore : Keystore
new_keystore = record {
  valid = false;
  domain_keys = [];
  last_update_timestamp = 0;
  keystore_timestamp = 0;
}

unfoldable pub or_else : {A : Type 0} → Option A → Option A → Option A
or_else none other = other
or_else (some a) other = some a

-- is_empty of the two files
unfoldable pub has_content : Option ConfigFile → Bool
has_content none = false
has_content (some f) = not (is_nil f.text)

unfoldable pub has_signature : Option Bytes → Bool
has_signature none = false
has_signature (some signature) = not (is_nil signature)

-- getLastModified; the store is there whenever it is asked.
unfoldable pub last_modified : KeyFiles → ℕ
last_modified files = elim files.store [ none ↦ 0 | some f ↦ f.modified ]

-- loadMap("domainkeys"): the map is left alone when the file does not open.
unfoldable pub load_keys : Entries → KeyFiles → Option Entries
load_keys keys files = elim files.store [ none ↦ some keys | some f ↦ load_map f.text ]

-- `verify` says whether EVP_VerifyFinal answers 1 for a text and a signature with the key of the library.
module _ (verify : Bytes → Bytes → Bool) where
  unfoldable pub validate_signature : KeyFiles → Bool
  validate_signature files = elim files.store [
    | none ↦ false
    | some f ↦ elim files.signature [ none ↦ false | some signature ↦ verify f.text signature ]
  ]

  -- Whether updateAuthorizedKeystore downloads the store.
  unfoldable pub needs_reload : ℕ → Keystore → KeyFiles → Bool
  needs_reload curr_time k files =
      let store_time = last_modified files in
      if has_content files.store && has_signature files.signature
      then if ltb curr_time (store_time + store_validity)
        then if not (k.keystore_timestamp == 0) && not (store_time == k.keystore_timestamp)
          then not (validate_signature files)
          else false
        else true
      else true

  -- The downloads, with the validation behind them.
  unfoldable pub reload : Provider → KeyFiles → ℕ × KeyFiles
  reload provider files =
      let stored = record files { store = or_else provider.store_file files.store } in
      let signed = record stored { signature = or_else provider.signature_file files.signature } in
      if not (provider.store_answer == hve_ok)
      then (provider.store_answer, stored)
      else if not (provider.signature_answer == hve_ok)
      then (provider.signature_answer, signed)
      else if validate_signature signed
      then (hve_ok, signed)
      else (hve_not_validated, signed)

  -- The end of updateAuthorizedKeystore; none is the fault of loadMap.
  unfoldable pub load_store : Keystore → KeyFiles → Option (ℕ × Keystore × KeyFiles)
  load_store k files = elim (load_keys k.domain_keys files) [
    | none ↦ none
    | some keys ↦ some (
      hve_ok,
      record k { domain_keys = keys; keystore_timestamp = last_modified files; valid = true },
      files,
    )
  ]

  unfoldable pub update_authorized_keystore :
      Provider → ℕ → Keystore → KeyFiles → Option (ℕ × Keystore × KeyFiles)
  update_authorized_keystore provider curr_time k files =
      let k' = record k { valid = false } in
      let (res, files') = reload provider files in
      if k.valid && ltb k.last_update_timestamp (curr_time + frequent_thresshold)
      then some (hve_ok, k, files)
      else if needs_reload curr_time k files
      then if res == hve_ok then load_store k' files' else some (res, k', files')
      else load_store k' files

  -- downloadHypervisorConfig, over what the provider answers to the two downloads of texts
  unfoldable pub download_hypervisor_config :
      {W : Type 0} → (Entries → W → W) → ℕ × Bytes → ℕ × Bytes → Group → Store W → ℕ × Store W
  download_hypervisor_config flush (config_answer, config_buf) (sig_answer, sig_buf) config s =
      let config_data = tokenize (split_lines config_buf) b'=' in
      if not (config_answer == hve_ok)
      then (config_answer, s)
      else if not (sig_answer == hve_ok)
      then (sig_answer, s)
      else if verify config_buf sig_buf
      then (hve_ok, (from_map flush config (some config_data) true true s).0)
      else (hve_not_validated, s)

unfoldable pub is_domain_valid : Bytes → Keystore → Bool
is_domain_valid domain k = is_some (StdMap.find domain k.domain_keys)

-- `check` reads a public key, and says whether EVP_VerifyFinal answers 1 for a text and a signature.
module _ (check : Bytes → Option (Bytes → Bytes → Bool)) where
  -- validateDomainData; none is a fault of the base64 decoder.
  unfoldable pub validate_domain_data : Bytes → Bytes → Bytes → Keystore → Option ℕ
  validate_domain_data domain signature payload k = elim (StdMap.find domain k.domain_keys) [
    | none ↦ some hve_not_found
    | some key ↦ elim (base64_decode key) [
      | none ↦ none
      | some domain_data ↦ elim (check domain_data) [
        | none ↦ some hve_external_error
        | some verify ↦ elim (base64_decode signature) [
          | none ↦ none
          | some sig_data ↦ some (if verify payload sig_data then hve_ok else hve_not_validated)
        ]
      ]
    ]
  ]

-- toLowerCase
unfoldable pub to_lower_case : Bytes → Bytes
to_lower_case [] = []
to_lower_case (c ∷ s) =
    let rest = to_lower_case s in if leb b'A' c && leb c b'Z' then (c + 32) ∷ rest else c ∷ rest

abbrev pub signature_name : Bytes
signature_name = codes "signature"

-- The loop of signatureValidate: the text of the parameters, and the last signature among them.
unfoldable pub checksum_parts : Entries → Bytes → Bytes → Bytes × Bytes
checksum_parts [] checksum_buf data_signature = (checksum_buf, data_signature)
checksum_parts ((name, value) ∷ entries) checksum_buf data_signature =
    let key = to_lower_case name in
    let is_signature = bytes_beq key signature_name in
    checksum_parts entries
      (if is_signature
        then checksum_buf
        else checksum_buf ++ key ++ (b'=' ∷ url_encode value) ++ 10 ∷ [])
      (if is_signature then value else data_signature)

-- signatureValidate
unfoldable pub signature_validate :
    (Bytes → Option (Bytes → Bytes → Bool)) → Bytes → Bytes → Entries → Keystore → Option ℕ
signature_validate check domain salt parameters k =
    let (checksum_buf, data_signature) = checksum_parts parameters [] [] in
    if is_nil data_signature
    then some hve_usage_error
    else validate_domain_data check domain data_signature (checksum_buf ++ salt) k
