-- ===== src/Keystore/Tests.antt =====
-- A store of keys whose signature nobody made, for src/DomainKeystore.cpp.
use libcernvm.Prelude.Texts.{codes}
use libcernvm.Prelude.{◌+◌, ◌<◌, ◌≡◌, refl, Bool, true, false, [], ◌∷◌, none, some, arith, ◌⊎◌}
use libcernvm.Prelude.Keys.{Bytes, bytes_key}
use libcernvm.StdMap
use libcernvm.Parameters.{Entries}
use libcernvm.LocalConfig.Escape.{unescape_value, unescape_loop}
use libcernvm.LocalConfig.File.{
  load_map, lines_of, read_lines, getline, break_at, load_from, load_line,
}
use libcernvm.Hypervisor.Codes.{hve_ok}
use libcernvm.Keystore.{
  Keystore, KeyFiles, Provider, new_keystore, has_content, has_signature, last_modified, load_keys,
  update_authorized_keystore, needs_reload, load_store,
}
use libcernvm.Keystore.Updates.{Trusted, update-Trusted, update-once}

abbrev refuse : Bytes → Bytes → Bool
refuse text signature = false

abbrev forged : KeyFiles
forged = record {
  store = some (record { text = codes "m=1\n"; modified = 5000 });
  signature = some (b'?' ∷ []);
}

abbrev nothing : KeyFiles
nothing = record { store = none; signature = none }

abbrev offline : Provider
offline = record {
  store_answer = 4294967290;
  store_file = none;
  signature_answer = 4294967290;
  signature_file = none;
}

abbrev forged_keys : Entries
forged_keys = (b'm' ∷ [], b'1' ∷ []) ∷ []

load_forged : load_keys [] forged ≡ some forged_keys
unfolding load_keys load_map lines_of read_lines getline break_at load_from load_line unescape_value
    unescape_loop StdMap.insert StdMap.find StdMap.place
load_forged = refl

forged_content :
    (has_content forged.store ≡ true)
    × (has_signature forged.signature ≡ true)
    × (last_modified forged ≡ 5000)
    × (new_keystore.valid ≡ false)
    × (new_keystore.keystore_timestamp ≡ 0)
    × (new_keystore.last_update_timestamp ≡ 0)
    × (new_keystore.domain_keys ≡ [])
unfolding has_content has_signature last_modified new_keystore
forged_content = (refl, refl, refl, refl, refl, refl, refl)

abbrev taken : Keystore
taken = record {
  valid = true;
  domain_keys = forged_keys;
  last_update_timestamp = 0;
  keystore_timestamp = 5000;
}

abbrev empty : Keystore
empty = record {
  valid = false;
  domain_keys = [];
  last_update_timestamp = 0;
  keystore_timestamp = 0;
}

-- A store with a signature that no verifier takes is loaded by the first update.
takes_forged :
    update_authorized_keystore refuse offline 6000 empty forged ≡ some (hve_ok, taken, forged)
unfolding update_authorized_keystore needs_reload load_store
takes_forged = ground (arith, forged_content, soon, load_forged)
  where
    soon : 6000 < last_modified forged + 86400
    soon = omega (arith, forged_content)

update-Trusted_example :
    ((empty.valid ≡ true) × (taken ≡ empty) × (forged ≡ forged))
    ⊎ ((load_keys [] forged ≡ some forged_keys) × Trusted refuse 6000 empty forged forged)
update-Trusted_example = update-Trusted refuse offline 6000 empty taken forged forged takes_forged

update-once_example :
    update_authorized_keystore refuse offline 900000 taken nothing ≡ some (hve_ok, taken, nothing)
update-once_example =
    update-once refuse offline offline 6000 900000 empty taken forged forged nothing refl
      takes_forged
