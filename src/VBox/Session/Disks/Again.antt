-- ===== src/VBox/Session/Disks/Again.antt =====
-- What mountDisk leaves in a slot, and what it answers for the same file a second time.
use libcernvm.Prelude.{
  ℕ, ◌+◌, ◌-◌, ◌<◌, ◌≢◌, ◌≡◌, refl, sym, ap, ◌∙◌, arith, ◌&&◌, Bool, true, false, inl, inr,
  Bool-cases, Option-cases, List, [], ◌∷◌, ◌++◌, none, some, if◌then◌else◌, length, ltb,
  append_assoc, length-append,
}
use libcernvm.Prelude.Keys.{Bytes, bytes_key, bytes_beq_iff}
use libcernvm.Prelude.Texts.{codes}
use libcernvm.Prelude.Member.{mem, mem-append}
use libcernvm.StdMap
use libcernvm.StdMap.{Map}
use libcernvm.Parameters.{set, Entries, get, contains}
use libcernvm.Parameters.Groups.{set-find, set-prefix}
use libcernvm.Utilities.Text.{get_kv, skip_blanks}
use libcernvm.Utilities.Text.Tokens.{get_kv-word}
use libcernvm.Ipc.Blocks.{take-append}
use libcernvm.Utilities.Text.Positions.{npos, cut}
use libcernvm.Hypervisor.Codes.{hve_ok, hve_already_exists}
use libcernvm.VBox.Session.{VboxSession}
use libcernvm.VBox.Session.Disks.{
  is_dvd, is_hdd, master_uuid, DiskType, DiskSlot, disk_slot, slot_file, slot_uuid, slot_text,
  medium, set_medium, attach_disk, unmount_disk, mount_disk,
}

-- A file without "(" that a std::string can hold is read back from its slot, with the uuid.
medium-parts :
    (file guid : Bytes)
    → mem b'(' file ≡ false
    → length file + 1 < npos
    → (slot_file (medium file guid) ≡ file) × (slot_uuid (medium file guid) ≡ some guid)
medium-parts file guid free short = (
  unfold slot_file in rw (parts, size) (take-append file (b' ' ∷ [])),
  unfold slot_uuid cut in rw (parts, enough, uuid_size) (ap some (take-append guid (b')' ∷ []))),
)
  where
    padded : Bytes
    padded = file ++ (b' ' ∷ [])

    padded-length : length padded ≡ length file + 1
    padded-length = length-append file (b' ' ∷ []) ∙ refl

    unparted : mem b'(' padded ≡ false
    unparted = unfold mem in ground (arith, mem-append b'(' file (b' ' ∷ []), free)

    parts :
        get_kv (medium file guid) b'(' 0
        ≡ (length padded, padded, codes "UUID: " ++ (guid ++ codes ")"))
    parts =
        unfold medium skip_blanks mem in
        ap (λ s. get_kv s b'(' 0)
          (sym (append_assoc file (b' ' ∷ []) (b'(' ∷ (codes "UUID: " ++ (guid ++ codes ")")))))
        ∙ get_kv-word b'(' padded (codes "UUID: " ++ (guid ++ codes ")")) unparted
            (omega (arith, padded-length, short))

    size : length padded - 1 ≡ length file
    size = omega (arith, padded-length)

    tail : Bytes
    tail = codes "UUID: " ++ (guid ++ codes ")")

    tail-length : length tail ≡ length guid + 7
    tail-length = omega (arith, length-append guid (codes ")"))

    enough : ltb (length tail) 6 ≡ false
    enough = ground (arith, tail-length)

    uuid_size : length tail - 7 ≡ length guid
    uuid_size = omega (arith, tail-length)

-- The slot of a session that is not given up holds a file.
Holds : {W : Type 0} → DiskSlot → Bytes → VboxSession W → Type 0
Holds slot file v =
    (guid : Bytes) × (v.is_aborting ≡ false)
    × (StdMap.find (v.machine.prefix ++ disk_slot slot) v.store.entries ≡ some (medium file guid))

set_medium-Holds :
    {W : Type 0} (flush : Entries → W → W) (slot : DiskSlot) (file guid : Bytes) (v : VboxSession W)
    → v.is_aborting ≡ false
    → Holds slot file (set_medium flush slot file guid v)
unfolding Holds set_medium
set_medium-Holds flush slot file guid v live = (
  guid,
  live,
  ap
        (λ p.
          StdMap.find (p ++ disk_slot slot)
            (set flush v.machine (disk_slot slot) (medium file guid) v.store).0.entries)
        (set-prefix flush v.machine (disk_slot slot) (medium file guid) v.store)
      ∙ ground (
        arith,
        set-find flush v.machine (disk_slot slot) (medium file guid)
            (v.machine.prefix ++ disk_slot slot) v.store,
        bytes_beq_iff (v.machine.prefix ++ disk_slot slot) (v.machine.prefix ++ disk_slot slot),
      ),
)

-- What a held slot reads as.
Holds-reads :
    {W : Type 0} (slot : DiskSlot) (file : Bytes) (v : VboxSession W)
    → mem b'(' file ≡ false
    → length file + 1 < npos
    → Holds slot file v
    → (contains v.machine v.store.entries (disk_slot slot) false ≡ true)
      × (slot_file (slot_text slot v) ≡ file)
      × (slot_uuid (slot_text slot v) ≢ none)
unfolding Holds slot_text get contains
Holds-reads slot file v free short (guid, live, held) =
    let (is_file, is_uuid) = medium-parts file guid free short in
    (ground (arith, held), rw held is_file, rw (held, is_uuid) (ground arith))

module _ {W : Type 0} (run : Bytes → ℕ × List Bytes) where
  unmount_disk-is_aborting :
      (slot : DiskSlot) (dtype : DiskType) (delete_file : Bool) (v u : VboxSession W) (ans : ℕ)
      (removed : List Bytes)
      → unmount_disk run slot dtype delete_file v ≡ some (ans, u, removed)
      → u.is_aborting ≡ v.is_aborting
  unfolding unmount_disk
  unmount_disk-is_aborting slot dtype delete_file v u ans removed h = ground (arith, h)

  module _ (flush : Entries → W → W) where
    mount_disk-held :
        (slot : DiskSlot) (dtype : DiskType) (file guid : Bytes) (multi : Bool)
        (disks : List (Map Bytes Bytes)) (v : VboxSession W)
        → mem b'(' file ≡ false
        → length file + 1 < npos
        → Holds slot file v
        → mount_disk run flush slot dtype file multi guid disks v ≡ some (hve_already_exists, v, [])
    unfolding mount_disk
    mount_disk-held slot dtype file guid multi disks v free short holds =
        let reads = Holds-reads slot file v free short holds in
        let live : v.is_aborting ≡ false = unfold Holds in holds.1 in
        ground (arith, live, reads, bytes_beq_iff file file)

    attach_disk-Holds :
        (slot : DiskSlot) (dtype : DiskType) (file master guid : Bytes) (multi : Bool)
        (v u : VboxSession W)
        → v.is_aborting ≡ false
        → attach_disk run flush slot dtype file multi master guid v ≡ (hve_ok, u)
        → Holds slot file u
    unfolding attach_disk
    attach_disk-Holds slot dtype file master guid multi v u live h =
        let used = if is_dvd dtype then codes "<irrelevant>" else guid in
        let is_set : u ≡ set_medium flush slot file used v = ground (arith, h) in
        rw is_set (set_medium-Holds flush slot file used v live)

    mount_disk-Holds :
        (slot : DiskSlot) (dtype : DiskType) (file guid : Bytes) (multi : Bool)
        (disks : List (Map Bytes Bytes)) (v u : VboxSession W) (removed : List Bytes)
        → mount_disk run flush slot dtype file multi guid disks v ≡ some (hve_ok, u, removed)
        → Holds slot file u
    unfolding mount_disk
    mount_disk-Holds slot dtype file guid multi disks v u removed h =
        elim (Bool-cases (contains v.machine v.store.entries (disk_slot slot) false)) [
          | inl taken ↦ elim (Option-cases (unmount_disk run slot dtype multi_attach v)) [
            | inl fault ↦ absurd (ground (arith, h, taken, fault))
            | inr ((ans, w, files), unmounted) ↦
                attach_disk-Holds slot dtype file master guid multi_attach w u
                  (unmount_disk-is_aborting slot dtype multi_attach v w ans files unmounted ∙ live)
                  (ground (arith, h, taken, unmounted))
          ]
          | inr empty ↦
              attach_disk-Holds slot dtype file master guid multi_attach v u live
                (ground (arith, h, empty))
        ]
      where
        multi_attach : Bool
        multi_attach = multi && is_hdd dtype

        master : Bytes
        master = if multi_attach then master_uuid disks file else []

        live : v.is_aborting ≡ false
        live = ground (arith, h)

-- For a file without "(" that leaves room for a blank in a std::string: once mountDisk answered
-- HVE_OK for it, the slot reads as that file, and mounting it there again, with whatever answers of
-- VBoxManage, disks, uuid, type and flag, is HVE_ALREADY_EXISTS, changes nothing and removes no file.
pub mount_disk-again :
    {W : Type 0} (run run' : Bytes → ℕ × List Bytes) (flush flush' : Entries → W → W)
    (slot : DiskSlot) (dtype dtype' : DiskType) (file guid guid' : Bytes) (multi multi' : Bool)
    (disks disks' : List (Map Bytes Bytes)) (v u : VboxSession W) (removed : List Bytes)
    → mem b'(' file ≡ false
    → length file + 1 < npos
    → mount_disk run flush slot dtype file multi guid disks v ≡ some (hve_ok, u, removed)
    → (slot_file (slot_text slot u) ≡ file)
      × (mount_disk run' flush' slot dtype' file multi' guid' disks' u
          ≡ some (hve_already_exists, u, []))
mount_disk-again run run' flush flush' slot dtype dtype' file guid guid' multi multi' disks disks' v
      u removed free short mounted =
    let held = mount_disk-Holds run flush slot dtype file guid multi disks v u removed mounted in
    (
      (Holds-reads slot file u free short held).1,
      mount_disk-held run' flush' slot dtype' file guid' multi' disks' u free short held,
    )
