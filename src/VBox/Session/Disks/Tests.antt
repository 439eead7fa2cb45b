-- ===== src/VBox/Session/Disks/Tests.antt =====
-- Disks of a session of src/Hypervisor/Virtualbox/VBoxSession.cpp that come and go.
use libcernvm.Prelude.{
  ℕ, ◌+◌, ◌≡◌, refl, true, false, List, [], ◌∷◌, none, some, if◌then◌else◌, arith, ◌==◌,
}
use libcernvm.Prelude.Keys.{Bytes, bytes_beq}
use libcernvm.Prelude.Texts.{codes}
use libcernvm.Prelude.Member.{mem}
use libcernvm.StdMap
use libcernvm.StdMap.{Map}
use libcernvm.Parameters.{
  Entries, Group, contains, set, written, commit_changes, put_on_map, get, erase,
}
use libcernvm.Hypervisor.Codes.{hve_ok, hve_already_exists}
use libcernvm.VBox.Session.{VboxSession}
use libcernvm.Utilities.Text.{get_kv, skip_blanks, tokenize, tokenize_into}
use libcernvm.Utilities.Text.Positions.{find_char, first_from, cut}
use libcernvm.VBox.Session.Commands.{get_disk_info}
use libcernvm.VBox.Session.Disks.{
  DiskType, DiskSlot, disk_slot, slot_file, slot_text, same_path, medium, mount_disk, unmount_disk,
  attach_disk, set_medium, is_hdd, is_dvd, master_uuid, slot_uuid, same_parent, storageattach,
  closemedium,
}
use libcernvm.VBox.Session.Disks.Again.{mount_disk-again}

abbrev group : Bytes → Group
group prefix = record { prefix = prefix; locked = false; changed = false; depth = 0 }

abbrev flush : Entries → ℕ → ℕ
flush entries saves = saves + 1

-- A VBoxManage that does every command, and one that does none.
abbrev obey : Bytes → ℕ × List Bytes
obey command = (0, [])

abbrev refuse : Bytes → ℕ × List Bytes
refuse command = (4, [])

-- One that only detaches
abbrev stubborn : Bytes → ℕ × List Bytes
stubborn [] = (4, [])
stubborn (c ∷ command) = if c == b's' then (0, []) else (4, [])

abbrev slot : DiskSlot
slot = record { controller = codes "IDE"; port = codes "1"; device = codes "0" }

-- A session with what stands in the slot
abbrev with_slot : Entries → VboxSession ℕ
with_slot entries = record {
  fsm = record {
    nodes = [];
    root = none;
    current = none;
    path = [];
    target = 0;
    inside_handler = false;
    has_thread = false;
    paused = false;
    interrupt_requested = false;
    progress_max = none;
    entered = [];
  };
  is_aborting = false;
  parameters = group [];
  user_data = group [];
  properties = group [];
  machine = group (codes "m/");
  local = group [];
  store = record { entries = entries; world = 0 };
  error_code = 0;
  error_count = 0;
  error_timestamp = 0;
  events = [];
}

abbrev slot_key : Bytes
slot_key = codes "m/IDE (1, 0)"

-- after a disk was put in
abbrev mounted : Bytes → Bytes → VboxSession ℕ
mounted file guid = record (with_slot []) {
  store = record { entries = (slot_key, medium file guid) ∷ []; world = 1 };
}

mounts :
    mount_disk obey flush slot DiskType.hdd (codes "a.vdi") true (codes "7") [] (with_slot [])
    ≡ some (hve_ok, mounted (codes "a.vdi") (codes "7"), [])
unfolding mount_disk attach_disk set_medium disk_slot medium is_hdd is_dvd master_uuid contains set
    written commit_changes put_on_map StdMap.find StdMap.insert StdMap.place
mounts = refl

mount_disk-again_example :
    (slot_file (slot_text slot (mounted (codes "a.vdi") (codes "7"))) ≡ codes "a.vdi")
    × (mount_disk refuse flush slot DiskType.dvd
          (codes "a.vdi")
          false
          (codes "8")
          []
          (mounted (codes "a.vdi") (codes "7"))
        ≡ some (hve_already_exists, mounted (codes "a.vdi") (codes "7"), []))
mount_disk-again_example =
    mount_disk-again obey refuse flush flush slot DiskType.hdd DiskType.dvd (codes "a.vdi")
      (codes "7") (codes "8") true false [] [] (with_slot []) (mounted (codes "a.vdi") (codes "7"))
      [] (unfold mem in refl) (omega arith) mounts

-- A file with a parenthesis is mounted over and over: the slot reads as what is before it.
mounts_anew :
    mount_disk obey flush slot DiskType.hdd
      (codes "b (86)")
      true
      (codes "8")
      []
      (mounted (codes "b (86)") (codes "7"))
    ≡ some (
      hve_ok,
      record (mounted (codes "b (86)") (codes "8")) {
        store = record {
          entries = (slot_key, medium (codes "b (86)") (codes "8")) ∷ [];
          world = 2;
        };
      },
      [],
    )
unfolding mount_disk attach_disk set_medium disk_slot medium is_hdd is_dvd master_uuid contains set
    written commit_changes put_on_map StdMap.find StdMap.insert StdMap.place bytes_beq slot_uuid
    get_kv find_char first_from slot_text get skip_blanks mem slot_file cut same_parent
    get_disk_info tokenize tokenize_into unmount_disk erase StdMap.erase
mounts_anew = refl

-- A slot whose text has no "(" is a fault.
no_uuid :
    mount_disk obey flush slot DiskType.dvd
      (codes "a.iso")
      false
      (codes "8")
      []
      (with_slot ((slot_key, codes "Empty") ∷ []))
    ≡ none
unfolding mount_disk slot_uuid slot_text contains StdMap.find bytes_beq disk_slot get_kv find_char
    first_from get
no_uuid = refl

-- A path that is only the start of another counts as the same.
same_start : same_path (codes "/a\\b") (codes "/a/b.vdi") ≡ true
unfolding same_path
same_start = refl

-- unmountDisk of a disk that VBoxManage will not close removes the file by hand.
by_hand :
    unmount_disk stubborn slot DiskType.hdd true (mounted (codes "a.vdi") (codes "7"))
    ≡ some (
      hve_ok,
      record (with_slot []) { store = record { entries = []; world = 1 } },
      codes "a.vdi" ∷ [],
    )
unfolding unmount_disk contains StdMap.find bytes_beq disk_slot medium slot_uuid get_kv find_char
    first_from slot_text get skip_blanks mem erase slot_file StdMap.erase cut storageattach
    closemedium
by_hand = refl
