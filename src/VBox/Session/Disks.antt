-- ===== src/VBox/Session/Disks.antt =====
-- mountDisk and unmountDisk of src/Hypervisor/Virtualbox/VBoxSession.cpp, with samePath of
-- src/Utilities.cpp. What runs a command of VBoxManage, the new uuid and the list of disks are given.
pub mod Again
mod Tests
use libcernvm.Prelude.{
  ℕ, ◌+◌, ◌-◌, Bool, true, false, not, ◌&&◌, ◌||◌, List, [], ◌∷◌, ◌++◌, Option, none, some,
  if◌then◌else◌, is_nil, ltb, ◌==◌, length, take,
}
use libcernvm.Prelude.Keys.{Bytes, bytes_key, bytes_beq}
use libcernvm.Prelude.Texts.{codes}
use libcernvm.Prelude.Binds.{◌>>=◌}
use libcernvm.StdMap
use libcernvm.StdMap.{Map}
use libcernvm.Parameters.{Entries, Group, Store, or_default, get, contains, erase, set}
use libcernvm.Utilities.Text.{get_kv}
use libcernvm.Utilities.Text.Positions.{cut}
use libcernvm.Hypervisor.Codes.{hve_ok, hve_already_exists, hve_delete_error, hve_invalid_state}
use libcernvm.VBox.Session.{VboxSession}
use libcernvm.VBox.Session.Commands.{vboxid, get_disk_info}

-- VBoxDiskType
pub data DiskType : Type 0 where
  hdd : DiskType
  dvd : DiskType
  floppy : DiskType

pub record DiskSlot : Type 0 where
  pub controller : Bytes
  pub port : Bytes
  pub device : Bytes

-- DISK_SLOT
unfoldable pub disk_slot : DiskSlot → Bytes
disk_slot slot =
    slot.controller ++ (codes " (" ++ (slot.port ++ (codes ", " ++ (slot.device ++ codes ")"))))

-- What stands in a slot: a file, a blank, and the uuid in parentheses. The file is kk.
unfoldable pub slot_file : Bytes → Bytes
slot_file text = let (_, kk, _) = get_kv text b'(' 0 in take (length kk - 1) kk

-- and the uuid is kv; none is the fault of substr.
unfoldable pub slot_uuid : Bytes → Option Bytes
slot_uuid text =
    let (_, _, kv) = get_kv text b'(' 0 in
    if ltb (length kv) 6 then none else some (cut 6 (length kv - 7) kv)

abbrev slash : ℕ → ℕ
slash c = if c == b'\\' then b'/' else c

-- samePath
unfoldable pub same_path : Bytes → Bytes → Bool
same_path [] path_b = true
same_path (a ∷ path_a) [] = false
same_path (a ∷ path_a) (b ∷ path_b) = slash a == slash b && same_path path_a path_b

unfoldable pub has_field : Bytes → Map Bytes Bytes → Bool
has_field name disk = elim (StdMap.find name disk) [ none ↦ false | some _ ↦ true ]

abbrev field : Bytes → Map Bytes Bytes → Bytes
field name disk = or_default (StdMap.find name disk) []

-- The uuid of the first disk that is the master of a file, or an empty text
unfoldable pub master_uuid : List (Map Bytes Bytes) → Bytes → Bytes
master_uuid [] disk_file = []
master_uuid (disk ∷ disks) disk_file =
    if has_field (codes "Type") disk
      && has_field (codes "Parent UUID") disk
      && has_field (codes "Location") disk
      && has_field (codes "UUID") disk
      && bytes_beq (field (codes "Type") disk) (codes "multiattach")
      && bytes_beq (field (codes "Parent UUID") disk) (codes "base")
      && same_path (field (codes "Location") disk) disk_file
    then field (codes "UUID") disk
    else master_uuid disks disk_file

unfoldable pub unmount_type : DiskType → Bytes
unmount_type DiskType.hdd = codes "disk"
unmount_type DiskType.dvd = codes "dvd"
unmount_type DiskType.floppy = codes "floppy"

unfoldable pub mount_type : DiskType → Bytes
mount_type DiskType.hdd = codes "hdd"
mount_type DiskType.dvd = codes "dvddrive"
mount_type DiskType.floppy = codes "fdd"

unfoldable pub is_hdd : DiskType → Bool
is_hdd DiskType.hdd = true
is_hdd _ = false

unfoldable pub is_dvd : DiskType → Bool
is_dvd DiskType.dvd = true
is_dvd _ = false

-- How a medium is closed and its file removed
unfoldable pub closemedium : DiskType → Bytes → Bytes
closemedium dtype medium =
    codes "closemedium " ++ (unmount_type dtype ++ (codes " \"" ++ (medium ++ codes "\" --delete")))

-- What is kept of a disk in a slot
unfoldable pub medium : Bytes → Bytes → Bytes
medium disk_file guid = disk_file ++ (codes " (UUID: " ++ (guid ++ codes ")"))

module _ {W : Type 0} where
  -- How every command for a slot starts
  unfoldable pub storageattach : DiskSlot → VboxSession W → Bytes
  storageattach slot v =
      codes "storageattach "
      ++ (vboxid v
          ++ (codes " --storagectl "
              ++ (slot.controller
                  ++ (codes " --port " ++ (slot.port ++ (codes " --device " ++ slot.device))))))

  unfoldable pub slot_text : DiskSlot → VboxSession W → Bytes
  slot_text slot v = get v.machine v.store.entries (disk_slot slot) [] false

  module _ (flush : Entries → W → W) where
    -- The medium of a slot after an attachment
    unfoldable pub set_medium : DiskSlot → Bytes → Bytes → VboxSession W → VboxSession W
    set_medium slot disk_file guid v =
        let (store, machine') =
          set flush v.machine (disk_slot slot) (medium disk_file guid) v.store in
        record v { store = store; machine = machine' }

  module _ (run : Bytes → ℕ × List Bytes) where
    -- unmountDisk: the answer, and the files that are removed by hand
    unfoldable pub unmount_disk :
        DiskSlot → DiskType → Bool → VboxSession W → Option (ℕ × VboxSession W × List Bytes)
    unmount_disk slot dtype delete_file v =
        let text = slot_text slot v in
        let file = slot_file text in
        let (detached, _) = run (storageattach slot v ++ codes " --medium none") in
        let (closed, _) = run (closemedium dtype file) in
        let erased = record v { store = erase v.machine (disk_slot slot) v.store } in
        if v.is_aborting
        then some (hve_invalid_state, v, [])
        else if not (contains v.machine v.store.entries (disk_slot slot) true)
        then some (hve_ok, v, [])
        else if not (detached == 0)
        then some (detached, v, [])
        else if not delete_file || closed == 0
        then some (hve_ok, erased, [])
        else do
          uuid ← slot_uuid text
          some (hve_ok, erased, if (run (closemedium dtype uuid)).0 == 0 then [] else file ∷ [])

    -- Whether the disk in the slot is a child of the one that is wanted
    unfoldable pub same_parent : Bytes → Bytes → VboxSession W → Bool
    same_parent uuid disk_file v =
        let parent =
          or_default (StdMap.find (codes "Parent UUID") (get_disk_info run uuid v))
            (codes "_child_") in
        let actual =
          or_default (StdMap.find (codes "UUID") (get_disk_info run disk_file v))
            (codes "_parent_") in
        bytes_beq parent actual

    module _ (flush : Entries → W → W) where
      -- (B.1) and (B.2)
      unfoldable pub attach_disk :
          DiskSlot → DiskType → Bytes → Bool → Bytes → Bytes → VboxSession W → ℕ × VboxSession W
      attach_disk slot dtype disk_file multi_attach master guid v =
          let disk_guid = if is_dvd dtype then codes "<irrelevant>" else guid in
          let start = storageattach slot v ++ (codes " --type " ++ mount_type dtype) in
          let by_path =
            start
            ++ (codes " --medium \""
                ++ (disk_file
                    ++ (codes "\""
                        ++ ((if is_dvd dtype then [] else codes " --setuuid " ++ guid)
                            ++ (if multi_attach then codes " --mtype multiattach" else []))))) in
          let by_uuid =
            start
            ++ (codes " --mtype multiattach --setuuid "
                ++ (disk_guid ++ (codes " --medium " ++ master))) in
          let mounted = set_medium flush slot disk_file disk_guid v in
          let (first, _) = run by_path in
          let (second, _) = run by_uuid in
          let ans =
            if multi_attach && not (is_nil master) && not (first == 0) then second else first in
          if ans == 0 then (hve_ok, mounted) else (ans, v)

      -- mountDisk
      unfoldable pub mount_disk :
          DiskSlot
          → DiskType
          → Bytes
          → Bool
          → Bytes
          → List (Map Bytes Bytes)
          → VboxSession W
          → Option (ℕ × VboxSession W × List Bytes)
      mount_disk slot dtype disk_file multi guid disks v =
          let multi_attach = multi && is_hdd dtype in
          let master = if multi_attach then master_uuid disks disk_file else [] in
          let attached : List Bytes → VboxSession W → Option (ℕ × VboxSession W × List Bytes) =
            λ removed u.
              let (ans, u') = attach_disk slot dtype disk_file multi_attach master guid u in
              some (ans, u', removed) in
          let reattached : Option (ℕ × VboxSession W × List Bytes) = do
            (ans, u, removed) ← unmount_disk slot dtype multi_attach v
            if ans == 0 then attached removed u else some (hve_delete_error, u, removed)
          in let replaced : Option (ℕ × VboxSession W × List Bytes) = do
            uuid ← slot_uuid (slot_text slot v)
            let is_wanted =
                bytes_beq (slot_file (slot_text slot v)) disk_file
                || (multi_attach && same_parent uuid disk_file v)
            if is_wanted then some (hve_already_exists, v, []) else reattached
            in if v.is_aborting
              then some (hve_invalid_state, v, [])
              else if contains v.machine v.store.entries (disk_slot slot) false
              then replaced
              else attached [] v
