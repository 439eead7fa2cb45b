-- ===== src/VBox/Instance/Loading/Totals.antt =====
-- What loadSessions of src/Hypervisor/Virtualbox/VBoxInstance.cpp leaves in the table.
use libcernvm.Prelude.{ℕ, [], ◌∷◌, ◌++◌}
use libcernvm.Prelude.Keys.{Bytes, bytes_key}
use libcernvm.StdMap
use libcernvm.VBox.Instance.{Table, erase_at}

module _ {W : Type 0} where
  -- A session that is told that it is gone, from its place among the open ones
  abbrev told_gone : ℕ → Bytes → Table W → Table W
  told_gone i u t = record t {
    hv = record (t.hv) { open_sessions = erase_at i t.hv.open_sessions };
    destroyed = t.destroyed ++ u ∷ [];
  }
