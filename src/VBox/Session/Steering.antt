-- ===== src/VBox/Session/Steering.antt =====
-- What a session of src/Hypervisor/Virtualbox/VBoxSession.cpp knows about its machine, and how often it
-- tries to heal.
use libcernvm.Prelude.{
  ℕ, zero, suc, ◌+◌, ◌≤◌, ◌≡◌, ◌≢◌, refl, ap, ◌∙◌, Bool, true, false, List, [], ◌∷◌, ◌++◌, Option,
  none, some, inl, inr, arith, leb, Bool-cases, Option-cases, length,
}
use libcernvm.Prelude.Keys.{bytes_key, bytes_beq_iff, nat_key}
use libcernvm.Prelude.Member.{mem, all_of, all_of_sound}
use libcernvm.StdMap
use libcernvm.StdMap.{is_some}
use libcernvm.Parameters.{Entries, get, or_default, set}
use libcernvm.Parameters.Groups.{set-find, set-prefix}
use libcernvm.Fsm.Graph.{registry_add, link_nodes, push_links, links_of}
use libcernvm.Fsm.Engine.{Fsm, Outcome, goto, drain, done}
use libcernvm.Fsm.Engine.Run.{announce, last_of, Quiet, Walk-last_of, goto-arrives}
use libcernvm.Hypervisor.Sessions.{get_num}
use libcernvm.Utilities.Numbers.{ston, read_digits}
use libcernvm.VBox.States.{
  session_nodes, session-IsClosed, session_routes, live_states, target_states,
}
use libcernvm.VBox.Session.{
  VboxSession, scheduled, state_key, machine_state, note_state, entering_state, entering_states,
  send_to,
}

ston-digit : (ss : ℕ) → ss ≤ 5 → ston ((b'0' + ss) ∷ []) ≡ ss
unfolding ston read_digits mem
ston-digit zero h = refl
ston-digit (suc zero) h = refl
ston-digit (suc (suc zero)) h = refl
ston-digit (suc (suc (suc zero))) h = refl
ston-digit (suc (suc (suc (suc zero)))) h = refl
ston-digit (suc (suc (suc (suc (suc zero))))) h = refl
ston-digit (suc (suc (suc (suc (suc (suc n)))))) h = absurd (omega arith)

module _ {W : Type 0} (flush : Entries → W → W) where
  -- The state that a session keeps in its parameters.
  unfoldable pub noted_state : VboxSession W → ℕ
  noted_state v = get_num v.local v.store.entries state_key

  noted-note_state :
      (ss : ℕ) (final : Bool) (v : VboxSession W)
      → ss ≤ 5
      → noted_state (note_state flush ss final v) ≡ ss
  unfolding noted_state note_state get_num get
  noted-note_state ss final v h =
      let key = v.local.prefix ++ state_key in
      ap
        (λ p. ston (
          or_default
            (StdMap.find (p ++ state_key)
              (set flush v.local state_key ((b'0' + ss) ∷ []) v.store).0.entries)
            []))
        (set-prefix flush v.local state_key ((b'0' + ss) ∷ []) v.store)
      ∙ ap (λ o. ston (or_default o [])) found
      ∙ ston-digit ss h
    where
      found :
          StdMap.find
            (v.local.prefix ++ state_key)
            (set flush v.local state_key ((b'0' + ss) ∷ []) v.store).0.entries
          ≡ some ((b'0' + ss) ∷ [])
      found = ground (
        arith,
        set-find flush v.local state_key ((b'0' + ss) ∷ []) (v.local.prefix ++ state_key) v.store,
        bytes_beq_iff (v.local.prefix ++ state_key) (v.local.prefix ++ state_key),
      )

  -- A state on the way changes the notes alone.
  entering_on :
      (n : ℕ) (v : VboxSession W)
      → ((entering_state flush (n, false) v).is_aborting ≡ v.is_aborting)
        × ((entering_state flush (n, false) v).events ≡ v.events)
  unfolding entering_state note_state
  entering_on n v = elim (Option-cases (machine_state n)) [
    | inl no_state ↦ rw (no_state, entering_state) (refl, refl)
    | inr (ss, is_state) ↦ elim (Bool-cases v.is_aborting) [
      | inl aborting ↦ rw (is_state, aborting, entering_state) (refl, refl)
      | inr going ↦ rw (is_state, going, entering_state) (refl, refl)
    ]
  ]

  -- The states that the engine enters on its way, the last of them one that stands for a state of the
  -- machine: the session notes that state, and tells it once, at the end.
  entering-announced :
      (n : ℕ) (p : List ℕ) (ss : ℕ) (v : VboxSession W)
      → v.is_aborting ≡ false
      → machine_state (last_of n p) ≡ some ss
      → ss ≤ 5
      → (noted_state (entering_states flush (announce (n ∷ p)) v) ≡ ss)
        × ((entering_states flush (announce (n ∷ p)) v).events ≡ v.events ++ ss ∷ [])
  unfolding entering_states entering_state note_state noted_state
  entering-announced n [] ss v a e h =
      let here : machine_state n ≡ some ss = e in
      rw (here, a, entering_state) (noted-note_state ss true v h, refl)
  entering-announced n (m ∷ p) ss v a e h =
      let v' = entering_state flush (n, false) v in
      let quiet = entering_on n v in
      let rest = entering-announced m p ss v' (quiet.0 ∙ a) e h in
      (rest.0, rest.1 ∙ ap (λ l. l ++ ss ∷ []) quiet.1)

-- A path that leads from one state to another is not empty.
entering-path :
    {W : Type 0} (flush : Entries → W → W) (from : ℕ) (p : List ℕ) (to ss : ℕ) (v : VboxSession W)
    → last_of from p ≡ to
    → from ≢ to
    → v.is_aborting ≡ false
    → machine_state to ≡ some ss
    → ss ≤ 5
    → (noted_state flush (entering_states flush (announce p) v) ≡ ss)
      × ((entering_states flush (announce p) v).events ≡ v.events ++ ss ∷ [])
entering-path flush from [] to ss v e ne a is_state h = absurd (ne e)
entering-path flush from (n ∷ p) to ss v e ne a is_state h =
    entering-announced flush n p ss v a (ap machine_state e ∙ is_state) h

send_to-going :
    {W : Type 0} (state : ℕ) (v : VboxSession W) (fsm : Fsm)
    → v.is_aborting ≡ false
    → goto state 1 v.fsm ≡ some fsm
    → send_to state v ≡ some (scheduled, record v { fsm = fsm })
unfolding send_to
send_to-going state v fsm a went = ground (arith, a, went)

is_small : Option ℕ → Bool
is_small none = false
is_small (some ss) = leb ss 5

targets_checked : all_of target_states (λ t. is_small (machine_state t)) ≡ true
unfolding all_of is_small machine_state
targets_checked = refl

live_checked : all_of live_states (λ n. is_some (StdMap.find n session_nodes)) ≡ true
unfolding all_of session_nodes registry_add link_nodes push_links links_of StdMap.assign
    StdMap.erase StdMap.place StdMap.find
live_checked = refl

target-machine_state :
    (t : ℕ) → mem t target_states ≡ true → (ss : ℕ) × (machine_state t ≡ some ss) × (ss ≤ 5)
unfolding is_small
target-machine_state t h = elim (Option-cases (machine_state t)) [
  | inl no_state ↦ absurd (ground (arith, checked, no_state))
  | inr (ss, is_state) ↦ (ss, is_state, ground (arith, checked, is_state))
]
  where
    checked : is_small (machine_state t) ≡ true
    checked = all_of_sound target_states (λ t. is_small (machine_state t)) t targets_checked h

-- A session that is not aborting and whose engine is idle in a live state is sent to another state
-- that stands for a state of its machine, while its handlers return and leave the engine alone: the
-- thread's loop ends in that state with nothing left to do, the session notes the state of the
-- machine that it stands for, and fires "stateChanged" with it once.
pub send_to-arrives :
    {W : Type 0} (flush : Entries → W → W) (handle : ℕ → Fsm → Outcome × Fsm) (from to : ℕ)
    (v : VboxSession W)
    → Quiet handle
    → v.is_aborting ≡ false
    → v.fsm.nodes ≡ session_nodes
    → v.fsm.current ≡ some from
    → v.fsm.inside_handler ≡ false
    → v.fsm.interrupt_requested ≡ false
    → mem from live_states ≡ true
    → mem to target_states ≡ true
    → from ≢ to
    → (v' : VboxSession W) × (fsm : Fsm) × (p : List ℕ) × (ss : ℕ) × (send_to to v
        ≡ some (scheduled, v'))
      × (drain handle (length v'.fsm.path + 1) v'.fsm ≡ some (done false fsm))
      × (fsm.current ≡ some to)
      × (fsm.path ≡ [])
      × (fsm.entered ≡ v.fsm.entered ++ announce p)
      × (machine_state to ≡ some ss)
      × (noted_state flush (entering_states flush (announce p) v') ≡ ss)
      × ((entering_states flush (announce p) v').events ≡ v.events ++ ss ∷ [])
send_to-arrives flush handle from to v quiet a nodes c out on live target ne =
    let (q, _, walk) = session_routes from to live target ne in
    let here : is_some (StdMap.find from v.fsm.nodes) ≡ true = rw nodes (
      all_of_sound live_states (λ n. is_some (StdMap.find n session_nodes)) from live_checked
        live) in
    let (s1, s2, went, short, ran, current, path, entered) =
      goto-arrives handle from to q v.fsm quiet c here out on (rw nodes session-IsClosed) ne
        (rw nodes walk) in
    let (ss, is_state, small) = target-machine_state to target in
    let v' = record v { fsm = s1 } in
    let told =
      entering-path flush from s1.path to ss v' (Walk-last_of short.walk) ne a is_state small in
    (
      v',
      s2,
      s1.path,
      ss,
      send_to-going to v s1 a went,
      ran,
      current,
      path,
      entered,
      is_state,
      told.0,
      told.1,
    )
