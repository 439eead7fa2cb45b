-- ===== src/VBox/Instance/Loading.antt =====
-- loadSessions of src/Hypervisor/Virtualbox/VBoxInstance.cpp. The configurations on the disk, in the order
-- of enumFiles, and what "list vms" answers are given; reports of progress are left out.
pub mod Totals
mod Tests
use libcernvm.Prelude.Texts.{codes}
use libcernvm.Prelude.{
  ℕ, zero, suc, ◌+◌, ◌-◌, ◌≡◌, Bool, true, false, not, ◌&&◌, List, [], ◌∷◌, ◌++◌, Option, none,
  some, if◌then◌else◌, is_nil, ltb, ◌==◌, length,
}
use libcernvm.Prelude.Keys.{Bytes, bytes_key}
use libcernvm.Prelude.Binds.{◌>>=◌}
use libcernvm.StdMap
use libcernvm.StdMap.{Map}
use libcernvm.Parameters.{Store, instance_root, get, contains}
use libcernvm.Utilities.Text.{tokenize}
use libcernvm.Utilities.Text.Positions.{npos, find_text, cut}
use libcernvm.Hypervisor.Codes.{hve_ok, hve_query_error}
use libcernvm.Hypervisor.Sessions.Defaults.{name_key, uuid_key, defaults}
use libcernvm.Hypervisor.Sessions.{Session, Instance, get_num, put_defaults}
use libcernvm.VBox.Session.{state_key}
use libcernvm.VBox.Instance.{Table, clean_sessions, release_lost}

abbrev inaccessible_text : Bytes
inaccessible_text = codes "<inaccessible>"

-- The name of a machine without the quotation marks around it and the blank behind them
unfoldable pub bare_name : Bytes → Bytes
bare_name name = cut 1 (if ltb (length name) 3 then length name else length name - 3) name

-- The machines by their uuids, from their names and uuids as VBoxManage prints them; none is the fault of
-- substr at an empty name.
unfoldable pub vms_of : Map Bytes Bytes → Map Bytes Bytes → Option (Map Bytes Bytes)
vms_of [] vms = some vms
vms_of ((name, uuid) ∷ listed) vms =
    let vms' =
      if find_text inaccessible_text (bare_name name) 0 == npos
      then StdMap.assign (cut 0 (length uuid - 1) uuid) (bare_name name) vms
      else vms in
    let rest = vms_of listed vms' in if is_nil name then none else rest

module _ {W : Type 0} where
  -- The constructor of VBoxSession, on a configuration
  unfoldable pub session_of : Store W → Session W
  session_of config =
      let store = put_defaults defaults config in
      record {
        parameters = instance_root;
        store = store;
        uuid = get instance_root store.entries uuid_key [] false;
        state = get_num instance_root store.entries state_key;
        instances = 0;
      }

  -- The sessions on the disk: those with a name and a uuid
  unfoldable pub disk_sessions : List (Store W) → Map Bytes (Session W) → Map Bytes (Session W)
  disk_sessions [] m = m
  disk_sessions (config ∷ configs) m = disk_sessions configs (
      if contains instance_root config.entries name_key false
        && contains instance_root config.entries uuid_key false
      then StdMap.assign (get instance_root config.entries uuid_key [] false) (session_of config) m
      else m)

  unfoldable pub load_sessions :
      ℕ → ℕ → List Bytes → List (Store W) → Table W → Option (ℕ × Table W)
  load_sessions fuel ans lines configs t =
      let loaded = record t { hv = record (t.hv) { sessions = disk_sessions configs [] } } in
      let cleaned : Option (ℕ × Table W) = do
        vms ← vms_of (tokenize lines b'{') []
        t1 ← clean_sessions fuel vms 0 loaded
        t2 ← release_lost fuel 0 t1
        some (hve_ok, t2)
      in if not (ans == 0) then some (hve_query_error, loaded) else cleaned
