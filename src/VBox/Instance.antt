-- ===== src/VBox/Instance.antt =====
-- The table of sessions of a VBoxInstance in src/Hypervisor/Virtualbox/VBoxInstance.cpp: sessionByVBID,
-- sessionClose, sessionDelete, abort, and the clean-ups of loadSessions. A session that is held by
-- others is the one of the table with its uuid, where the table has one.
mod Removal
pub mod Cleaning
pub mod Known
pub mod Closing
pub mod Loading
mod Tests
use libcernvm.Prelude.Texts.{codes}
use libcernvm.Prelude.{
  ℕ, zero, suc, ◌+◌, ◌≡◌, Bool, true, false, List, [], ◌∷◌, ◌++◌, Option, none, some, if◌then◌else◌,
  is_nil, get_elem?, ◌%◌, ◌&&◌, ltb, ◌==◌,
}
use libcernvm.Prelude.Keys.{Bytes, bytes_key, bytes_beq}
use libcernvm.StdMap
use libcernvm.StdMap.{Map, is_some}
use libcernvm.Hypervisor.Sessions.Defaults.{vboxid_key}
use libcernvm.Hypervisor.Sessions.{Session, Instance, text_of, get_num}
use libcernvm.Parameters.{subgroup}
use libcernvm.VBox.Session.{ss_missing, state_key}

-- The instance, the uuids of the sessions that were told that they are gone, in order, and those
-- whose files were cleared, and those whose threads were stopped.
pub record Table (W : Type 0) : Type 0 where
  pub hv : Instance W
  pub destroyed : List Bytes
  pub cleared : List Bytes
  pub aborted : List Bytes

-- The name of the group local
abbrev pub local_name : Bytes
local_name = codes "local"

unfoldable pub listed : Bytes → List Bytes → Bool
listed uuid [] = false
listed uuid (u ∷ us) = if bytes_beq uuid u then true else listed uuid us

-- Without the first one of that name
unfoldable pub erase_first : Bytes → List Bytes → List Bytes
erase_first uuid [] = []
erase_first uuid (u ∷ us) = if bytes_beq uuid u then us else u ∷ erase_first uuid us

-- Without the one at a place
unfoldable pub erase_at : ℕ → List Bytes → List Bytes
erase_at i [] = []
erase_at zero (u ∷ us) = us
erase_at (suc i) (u ∷ us) = u ∷ erase_at i us

module _ {W : Type 0} where
  unfoldable pub session_by_vbid : Bytes → Map Bytes (Session W) → Option (Session W)
  session_by_vbid guid [] = none
  session_by_vbid guid ((id, sess) ∷ sessions) =
      if bytes_beq (text_of sess vboxid_key) guid then some sess else session_by_vbid guid sessions

  -- The session is told when it is open.
  unfoldable pub close_gone : Bytes → Table W → Table W
  close_gone uuid t =
      if listed uuid t.hv.open_sessions
      then record t {
        hv = record (t.hv) { open_sessions = erase_first uuid t.hv.open_sessions };
        destroyed = t.destroyed ++ uuid ∷ [];
      }
      else t

  unfoldable pub forget_session : Bytes → Table W → Table W
  forget_session uuid t = record t {
    hv = record (t.hv) { sessions = StdMap.erase uuid t.hv.sessions };
    cleared = t.cleared ++ uuid ∷ [];
  }

  -- sessionDelete, of the session with that uuid
  unfoldable pub session_delete : Bytes → Table W → Table W
  session_delete uuid t =
      if is_some (StdMap.find uuid t.hv.sessions)
      then forget_session uuid (close_gone uuid t)
      else t

  -- A session that has changed, in the table
  unfoldable pub share_session : Session W → Map Bytes (Session W) → Map Bytes (Session W)
  share_session sess [] = []
  share_session sess ((id, old) ∷ sessions) =
      let rest = share_session sess sessions in
      if bytes_beq id sess.uuid then (id, sess) ∷ sessions else (id, old) ∷ rest

  -- SS_MISSING in the local group
  unfoldable pub is_missing : Session W → Bool
  is_missing sess =
      get_num (subgroup sess.parameters local_name) sess.store.entries state_key == ss_missing

  -- The last client is gone.
  unfoldable pub close_last : Bytes → Table W → Table W
  close_last uuid t = record t {
    hv = record (t.hv) { open_sessions = erase_first uuid t.hv.open_sessions };
    aborted = t.aborted ++ uuid ∷ [];
  }

  -- sessionClose; instances is an int, given by its pattern of 32 bits.
  unfoldable pub session_close : Session W → Table W → Table W
  session_close sess t =
      let left = (sess.instances + 4294967295) % 4294967296 in
      let sess' = record sess { instances = left } in
      let t' = record t { hv = record (t.hv) { sessions = share_session sess' t.hv.sessions } } in
      let closed = close_last sess.uuid t' in
      if ltb 0 left && ltb left 2147483648
      then t'
      else if is_missing sess
      then session_delete sess.uuid closed
      else closed

  -- abort
  unfoldable pub abort : Table W → Table W
  abort t = record t {
    hv = record { sessions = []; open_sessions = [] };
    aborted = t.aborted ++ t.hv.open_sessions;
  }

  -- Whether the hypervisor knows the machine of a session, by the machines that it lists.
  unfoldable pub is_registered : Map Bytes Bytes → Session W → Bool
  is_registered vms sess = is_some (StdMap.find (text_of sess vboxid_key) vms)

  -- The loop of loadSessions over the sessions, from the place where its iterator stands: behind a
  -- removal the iterator is set to the first session, and the loop moves it on.
  unfoldable pub clean_sessions : ℕ → Map Bytes Bytes → ℕ → Table W → Option (Table W)
  clean_sessions zero vms i t = none
  clean_sessions (suc fuel) vms i t = elim (get_elem? t.hv.sessions i) [
    | none ↦ some t
    | some (_, sess) ↦
        let next = clean_sessions fuel vms (i + 1) t in
        let t' = session_delete sess.uuid t in
        let again = clean_sessions fuel vms 1 t' in
        if is_registered vms sess then next else if is_nil t'.hv.sessions then some t' else again
  ]

  -- The loop of loadSessions over the open sessions
  unfoldable pub release_lost : ℕ → ℕ → Table W → Option (Table W)
  release_lost zero i t = none
  release_lost (suc fuel) i t = elim (get_elem? t.hv.open_sessions i) [
    | none ↦ some t
    | some uuid ↦
        let next = release_lost fuel (i + 1) t in
        let t' = record t {
          hv = record (t.hv) { open_sessions = erase_at i t.hv.open_sessions };
          destroyed = t.destroyed ++ uuid ∷ [];
        } in
        let again = release_lost fuel 1 t' in
        if is_some (StdMap.find uuid t.hv.sessions)
        then next
        else if is_nil t'.hv.open_sessions
        then some t'
        else again
  ]
