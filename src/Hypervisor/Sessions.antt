-- ===== src/Hypervisor/Sessions.antt =====
-- The sessions of an HVInstance in src/Hypervisor.cpp: sessionValidate, sessionOpen, sessionByName and
-- checkDaemonNeed, with allocateSession of src/Hypervisor/Virtualbox/VBoxInstance.cpp. A session's
-- parameters are a root group; what its commitChanges writes to is a parameter.
pub mod Defaults
pub mod Guarded
use libcernvm.Prelude.Texts.{codes}
use libcernvm.Prelude.{
  ℕ, zero, suc, ◌+◌, ◌-◌, ◌*◌, ◌≡◌, Bool, true, false, not, ◌&&◌, ◌||◌, List, [], ◌∷◌, ◌++◌, Option,
  none, some, if◌then◌else◌, is_nil, ltb, leb, ◌==◌,
}
use libcernvm.Prelude.Keys.{Bytes, bytes_key, bytes_beq}
use libcernvm.Prelude.Member.{mem}
use libcernvm.StdMap
use libcernvm.StdMap.{Map, is_some}
use libcernvm.Parameters.{
  Entries, Group, Store, instance_root, get, set, set_default, lock, unlock, from_parameters,
}
use libcernvm.Utilities.Numbers.{ston}
use libcernvm.Utilities.Clean.{is_sanitized, alnum_chars}
use libcernvm.Hypervisor.Sessions.Defaults.{
  name_key, secret_key, uuid_key, initialized_key, daemon_controlled_key, crypto_salt, defaults,
}

pub record Session (W : Type 0) : Type 0 where
  pub parameters : Group
  pub store : Store W
  pub uuid : Bytes
  pub state : ℕ
  pub instances : ℕ

-- HVInstance: the sessions by their uuid, and the uuids of the open ones, in order.
pub record Instance (W : Type 0) : Type 0 where
  pub sessions : Map Bytes (Session W)
  pub open_sessions : List Bytes

-- getNum<int> with the default 0
unfoldable pub get_num : Group → Entries → Bytes → ℕ
get_num g m name = ston (get g m name [] false)

module _ {W : Type 0} where
  unfoldable pub text_of : Session W → Bytes → Bytes
  text_of sess name = get sess.parameters sess.store.entries name [] false

  -- sessionByName: the first session in the order of the uuids that has the name.
  unfoldable pub session_by_name : Bytes → Map Bytes (Session W) → Option (Bytes × Session W)
  session_by_name name [] = none
  session_by_name name ((id, sess) ∷ sessions) =
      if bytes_beq (text_of sess name_key) name
      then some (id, sess)
      else session_by_name name sessions

  -- the defaults of the constructor of HVSession
  unfoldable pub put_defaults : List (Bytes × Bytes) → Store W → Store W
  put_defaults [] s = s
  put_defaults ((name, value) ∷ rest) s = put_defaults rest (set_default instance_root name value s)

-- sessionValidate: -12, 0, 1 or 2.
pub data Validity : Type 0 where
  not_validated : Validity
  missing : Validity
  valid_key : Validity
  invalid_key : Validity

module _ {W : Type 0} (flush : Entries → W → W) (sha256 : Bytes → Bytes) where
  unfoldable pub session_validate : Group → Entries → Instance W → Validity
  session_validate g parameters hv =
      let name = get g parameters name_key [] false in
      let key = get g parameters secret_key [] false in
      if is_nil name || is_nil key then not_validated else elim (session_by_name name hv.sessions) [
        | none ↦ missing
        | some (_, sess) ↦
            if bytes_beq (text_of sess secret_key) (sha256 (crypto_salt ++ key))
            then valid_key
            else invalid_key
      ]

  -- allocateSession, with the new GUID and what LocalConfig::forRuntime loads.
  unfoldable pub allocate_session : Bytes → Store W → Instance W → Session W × Instance W
  allocate_session guid config hv =
      let (store, root) = set flush instance_root uuid_key guid config in
      let store' = put_defaults defaults store in
      let sess : Session W = record {
        parameters = root;
        store = store';
        uuid = get root store'.entries uuid_key [] false;
        state = get_num root store'.entries (codes "state");
        instances = 0;
      } in
      (sess, record hv { sessions = StdMap.assign guid sess hv.sessions })

  -- How sessionOpen fills the parameters of a session: with the mark "initialized" they win over the
  -- ones that are given.
  unfoldable pub populate : Group → Entries → Bytes → Session W → Session W
  populate g parameters key_hash sess =
      let root = lock sess.parameters in
      let fresh = get_num root sess.store.entries initialized_key == 0 in
      let (s, root', _) = from_parameters flush root g parameters false fresh sess.store in
      let (s', root'') =
        if fresh then set flush root' initialized_key (b'1' ∷ []) s else (s, root') in
      let (s'', root3) = set flush root'' secret_key key_hash s' in
      let (s3, root4) = unlock flush root3 s'' in
      record sess { parameters = root4; store = s3; instances = suc sess.instances }

  -- The session that sessionOpen takes, with its uuid.
  unfoldable pub found_session :
      Bytes → Bytes → Bytes → Store W → Instance W → Option (Bytes × Session W × Instance W)
  found_session name key_hash guid config hv = elim (session_by_name name hv.sessions) [
    | none ↦ let (sess, hv') = allocate_session guid config hv in some (guid, sess, hv')
    | some (id, sess) ↦
        if bytes_beq (text_of sess secret_key) key_hash then some (id, sess, hv) else none
  ]

  -- sessionOpen: the uuid of the session, if it is given out.
  unfoldable pub session_open :
      Group → Entries → Bytes → Store W → Instance W → Option Bytes × Instance W
  session_open g parameters guid config hv =
      let name = get g parameters name_key [] false in
      let key = get g parameters secret_key [] false in
      let key_hash = sha256 (crypto_salt ++ key) in
      if is_nil name || is_nil key || not (is_sanitized name alnum_chars)
      then (none, hv)
      else elim (found_session name key_hash guid config hv) [
        | none ↦ (none, hv)
        | some (id, sess, hv') ↦ (
          some id,
          record {
            sessions = StdMap.assign id (populate g parameters key_hash sess) hv'.sessions;
            open_sessions = hv'.open_sessions ++ id ∷ [];
          },
        )
      ]

-- checkDaemonNeed: whether the daemon is to be started, stopped or left alone; SS_AVAILABLE is 1,
-- SS_PAUSED 4 and SS_RUNNING 5.
pub data Need : Type 0 where
  unsupported : Need
  unchanged : Need
  start_daemon : Need
  stop_daemon : Need

module _ {W : Type 0} where
  unfoldable pub daemon_needed : Map Bytes (Session W) → Bool
  daemon_needed [] = false
  daemon_needed ((id, sess) ∷ sessions) =
      let controlled = get_num sess.parameters sess.store.entries daemon_controlled_key in
      (not (controlled == 0) && mem sess.state (1 ∷ 5 ∷ 4 ∷ [])) || daemon_needed sessions

  unfoldable pub check_daemon_need : Bytes → Bool → Instance W → Need
  check_daemon_need daemon_bin_path is_running hv =
      let needed = daemon_needed hv.sessions in
      if is_nil daemon_bin_path
      then unsupported
      else if needed && not is_running
      then start_daemon
      else if not needed && is_running
      then stop_daemon
      else unchanged
