-- ===== src/VBox/Instance/Loading/Tests.antt =====
-- Sessions that src/Hypervisor/Virtualbox/VBoxInstance.cpp loads.
use libcernvm.Prelude.Texts.{codes}
use libcernvm.Prelude.{ℕ, List, [], ◌∷◌}
use libcernvm.Prelude.Keys.{Bytes, bytes_key}
use libcernvm.StdMap
use libcernvm.StdMap.{Map}
use libcernvm.Parameters.{Store}
use libcernvm.Hypervisor.Sessions.Defaults.{name_key, uuid_key, vboxid_key}
use libcernvm.VBox.Instance.{Table}

abbrev config : Store ℕ
config = record {
  entries = (name_key, b'v' ∷ []) ∷ (uuid_key, b'u' ∷ []) ∷ (vboxid_key, b'3' ∷ []) ∷ [];
  world = 0;
}

-- "v" {3}
abbrev lines : List Bytes
lines = (34 ∷ b'v' ∷ 34 ∷ codes " {3}") ∷ []

abbrev before : Table ℕ
before = record {
  hv = record { sessions = []; open_sessions = (b'o' ∷ []) ∷ [] };
  destroyed = [];
  cleared = [];
  aborted = [];
}
