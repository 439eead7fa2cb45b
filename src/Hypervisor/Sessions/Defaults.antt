-- ===== src/Hypervisor/Sessions/Defaults.antt =====
-- The names and default values of a session's parameters, in include/CernVM/Hypervisor.h.
use libcernvm.Prelude.Texts.{codes}
use libcernvm.Prelude.{[], ◌∷◌, List}
use libcernvm.Prelude.Keys.{Bytes}

abbrev pub daemon_controlled_key : Bytes
daemon_controlled_key = codes "daemonControlled"

abbrev pub initialized_key : Bytes
initialized_key = codes "initialized"

abbrev pub vboxid_key : Bytes
vboxid_key = codes "vboxid"

abbrev pub name_key : Bytes
name_key = codes "name"

abbrev pub secret_key : Bytes
secret_key = codes "secret"

abbrev pub uuid_key : Bytes
uuid_key = codes "uuid"

-- CRYPTO_SALT
abbrev pub crypto_salt : Bytes
crypto_salt = codes "N5boost6system12system_errorE"

-- The defaults that the constructor of HVSession gives, in order.
abbrev pub defaults : List (Bytes × Bytes)
defaults =
    (codes "initialized", b'0' ∷ [])
    ∷ (codes "cpus", b'1' ∷ [])
    ∷ (codes "memory", codes "512")
    ∷ (codes "disk", codes "1024")
    ∷ (codes "executionCap", codes "100")
    ∷ (codes "apiPort", codes "80")
    ∷ (codes "flags", b'0' ∷ [])
    ∷ (codes "daemonControlled", b'0' ∷ [])
    ∷ (codes "daemonMinCap", b'0' ∷ [])
    ∷ (codes "daemonMaxCap", b'0' ∷ [])
    ∷ (codes "daemonFlags", b'0' ∷ [])
    ∷ (codes "uuid", [])
    ∷ (codes "ip", [])
    ∷ (codes "secret", [])
    ∷ (codes "name", [])
    ∷ (codes "diskURL", [])
    ∷ (codes "diskChecksum", [])
    ∷ (codes "cernvmVersion", codes "latest")
    ∷ []
