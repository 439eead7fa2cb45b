-- ===== src/VBox/Session.antt =====
-- VBoxSession of src/Hypervisor/Virtualbox/VBoxSession.cpp: the methods that send the engine of
-- Fsm.Engine to a state, and what it notes on the way. VBoxManage, the file
-- system and the clock are parameters. A group is named by its prefix in the parameters of the session.
pub mod Commands
pub mod Disks
pub mod Errors
pub mod Failures
pub mod Healing
pub mod Steering
mod Tests
use libcernvm.Prelude.Texts.{codes}
use libcernvm.Prelude.{
  ℕ, zero, suc, ◌+◌, ◌-◌, ◌%◌, ◌≡◌, Bool, true, false, not, ◌&&◌, List, [], ◌∷◌, ◌++◌, Option, none,
  some, if◌then◌else◌, is_nil, ltb, leb, ◌==◌,
}
use libcernvm.Prelude.Keys.{Bytes, bytes_key, bytes_beq}
use libcernvm.StdMap
use libcernvm.StdMap.{Map}
use libcernvm.Parameters.{
  Entries, Group, Store, get, set, contains, clear, erase, lock, unlock, from_map, from_parameters,
}
use libcernvm.Fsm.Engine.{Fsm, Outcome, Result, goto, skew, jump, active}
use libcernvm.Utilities.Text.{explode}
use libcernvm.Utilities.Text.Positions.{npos, find_text}
use libcernvm.Hypervisor.Sessions.{get_num}
use libcernvm.Hypervisor.Sessions.Defaults.{vboxid_key, initialized_key}

-- SS_MISSING, SS_POWEROFF, SS_SAVED, SS_PAUSED and SS_RUNNING
abbrev pub ss_missing : ℕ
ss_missing = 0

abbrev pub ss_poweroff : ℕ
ss_poweroff = 2

abbrev pub ss_saved : ℕ
ss_saved = 3

abbrev pub ss_paused : ℕ
ss_paused = 4

abbrev pub ss_running : ℕ
ss_running = 5

-- The names of the parameters.
abbrev pub state_key : Bytes
state_key = codes "state"

abbrev can_override_key : Bytes
can_override_key = codes "canOverride"

-- The answers HVE_OK, HVE_SCHEDULED, HVE_INVALID_STATE, HVE_NOT_IMPLEMENTED and HVE_EXTERNAL_ERROR.
pub data Answer : Type 0 where
  ok : Answer
  scheduled : Answer
  invalid_state : Answer
  not_implemented : Answer
  external_error : Answer

-- A session: its groups share the store. `events` are the states that "stateChanged" was fired with.
pub record VboxSession (W : Type 0) : Type 0 where
  pub fsm : Fsm
  pub is_aborting : Bool
  pub parameters : Group
  pub user_data : Group
  pub properties : Group
  pub machine : Group
  pub local : Group
  pub store : Store W
  pub error_code : ℕ
  pub error_count : ℕ
  pub error_timestamp : ℕ
  pub events : List ℕ

-- The state of the machine behind a state of the engine.
unfoldable pub machine_state : ℕ → Option ℕ
machine_state state =
    if state == 3
    then some ss_missing
    else if state == 4
    then some ss_poweroff
    else if state == 5
    then some ss_saved
    else if state == 6
    then some ss_paused
    else if state == 7
    then some ss_running
    else none

-- and the other way round, as `update` goes
unfoldable pub engine_state : ℕ → Option ℕ
engine_state s =
    if s == ss_missing
    then some 3
    else if s == ss_poweroff
    then some 4
    else if s == ss_saved
    then some 5
    else if s == ss_paused
    then some 6
    else if s == ss_running
    then some 7
    else none

-- What UpdateSession makes of the state that VBoxManage reports.
unfoldable pub reported_state : Bytes → Option ℕ
reported_state text =
    if not (find_text (codes "running") text 0 == npos)
    then some 7
    else if not (find_text (codes "paused") text 0 == npos)
    then some 6
    else if not (find_text (codes "saved") text 0 == npos)
    then some 5
    else if not (find_text (codes "aborted") text 0 == npos)
    then some 4
    else if not (find_text (codes "powered off") text 0 == npos)
    then some 4
    else none

module _ {W : Type 0} where
  -- A state that the engine is sent to; `none` is the use of a null current node.
  unfoldable pub send_to : ℕ → VboxSession W → Option (Answer × VboxSession W)
  send_to state v = if v.is_aborting then some (invalid_state, v) else elim (goto state 1 v.fsm) [
    | none ↦ none
    | some fsm ↦ some (scheduled, record v { fsm = fsm })
  ]

  unfoldable pub pause : VboxSession W → Option (Answer × VboxSession W)
  pause = send_to 6

  unfoldable pub close : VboxSession W → Option (Answer × VboxSession W)
  close = send_to 3

  unfoldable pub resume : VboxSession W → Option (Answer × VboxSession W)
  resume = send_to 7

  unfoldable pub stop : VboxSession W → Option (Answer × VboxSession W)
  stop = send_to 4

  unfoldable pub hibernate : VboxSession W → Option (Answer × VboxSession W)
  hibernate = send_to 5

  unfoldable pub reset : VboxSession W → Answer × VboxSession W
  reset v = (not_implemented, v)

  -- open, behind the start of the thread
  unfoldable pub open_session : VboxSession W → Option (Answer × VboxSession W)
  open_session v = send_to 101 (record v { is_aborting = false })

  unfoldable pub get_property : Bytes → VboxSession W → Bytes
  get_property name v = if v.is_aborting then [] else get v.properties v.store.entries name [] false

  -- FSMSkew on the engine of the session
  unfoldable pub skew_to : ℕ → VboxSession W → Option (VboxSession W)
  skew_to state v = elim (skew state v.fsm) [
    | none ↦ none
    | some fsm ↦ some (record v { fsm = fsm })
  ]

  -- The end of `update`: a state that has changed behind the engine's back.
  unfoldable pub follow : ℕ → ℕ → VboxSession W → Option (VboxSession W)
  follow last_state new_state v =
      if new_state == last_state
      then some v
      else elim (engine_state new_state) [ none ↦ some v | some state ↦ skew_to state v ]

-- The names that may override the parameters.
unfoldable pub overridable : Group → Entries → List Bytes
overridable g m =
    if contains g m can_override_key false
    then explode (get g m can_override_key [] false) b',' []
    else []

unfoldable pub has_name : Bytes → List Bytes → Bool
has_name name [] = false
has_name name (n ∷ names) = if bytes_beq n name then true else has_name name names

module _ {W : Type 0} (flush : Entries → W → W) where
  -- `local->setNum<int>("state", …)`, for the states above, and the event
  unfoldable pub note_state : ℕ → Bool → VboxSession W → VboxSession W
  note_state ss final v =
      let (store, local') = set flush v.local state_key ((b'0' + ss) ∷ []) v.store in
      record v {
        store = store;
        local = local';
        events = if final then v.events ++ ss ∷ [] else v.events;
      }

  -- FSMEnteringState
  unfoldable pub entering_state : ℕ × Bool → VboxSession W → VboxSession W
  entering_state (state, final) v = elim (machine_state state) [
    | none ↦ v
    | some ss ↦ if v.is_aborting then v else note_state ss final v
  ]

  -- The states that the engine has entered, in order.
  unfoldable pub entering_states : List (ℕ × Bool) → VboxSession W → VboxSession W
  entering_states [] v = v
  entering_states (e ∷ entered) v = entering_states entered (entering_state e v)

  -- The loop of `start`: what the user data may override.
  unfoldable pub override_all : List Bytes → Group → Group → Store W → Store W × Group
  override_all [] user_data parameters s = (s, parameters)
  override_all (name ∷ names) user_data parameters s =
      let (s', parameters') = set flush parameters name (get user_data s.entries name [] false) s in
      let given = contains user_data s.entries name false in
      override_all names user_data (if given then parameters' else parameters)
        (if given then s' else s)

  -- start, with a group of another map
  unfoldable pub start : Group → Entries → VboxSession W → Option (Answer × VboxSession W)
  start other given v =
      let (s, user_data', _) = from_parameters flush v.user_data other given true true v.store in
      let names = overridable v.parameters s.entries in
      let (s', parameters') = override_all names user_data' (lock v.parameters) s in
      let (s'', parameters'') = unlock flush parameters' s' in
      if v.is_aborting
      then some (invalid_state, v)
      else send_to 7 (record v { store = s''; user_data = user_data'; parameters = parameters'' })

  -- setProperty
  unfoldable pub set_property : Bytes → Bytes → VboxSession W → Answer × VboxSession W
  set_property name key v =
      let (s, properties') = set flush v.properties name key v.store in
      let v' = record v { store = s; properties = properties' } in
      let (s', parameters') = set flush v.parameters name key s in
      if v.is_aborting
      then (invalid_state, v)
      else if has_name name (overridable v.parameters s.entries)
      then (ok, record v' { store = s'; parameters = parameters' })
      else (ok, v')

  -- destroyVM without the report of an error: VBoxManage answers with 0 or not.
  unfoldable pub destroy_vm : Bool → VboxSession W → Answer × VboxSession W
  destroy_vm vbox_ok v =
      let (s, local') = set flush v.local initialized_key (b'0' ∷ []) v.store in
      let s' = clear v.machine (erase local' vboxid_key s) in
      if v.is_aborting
      then (invalid_state, v)
      else if vbox_ok
      then (ok, record v { store = s'; local = local' })
      else (external_error, v)

  -- UpdateSession, with what getMachineInfo finds
  unfoldable pub update_session : Map Bytes Bytes → VboxSession W → Option (VboxSession W)
  update_session info v =
      let initialized = get_num v.local v.store.entries initialized_key in
      let (s, machine') = from_map flush v.machine (some info) true true v.store in
      let v' = record v { store = s; machine = machine' } in
      if v.is_aborting
      then some v
      else if not (contains v.parameters v.store.entries vboxid_key false)
      then skew_to 3 v
      else elim (StdMap.find (codes ":ERROR:") info) [
        | some _ ↦
            skew_to 3 (if initialized == 0 then v' else record v' { store = clear v'.local s })
        | none ↦ elim (StdMap.find (codes "State") info) [
          | none ↦ some v'
          | some text ↦ elim (reported_state text) [
            | none ↦ some v'
            | some state ↦ skew_to state v'
          ]
        ]
      ]
