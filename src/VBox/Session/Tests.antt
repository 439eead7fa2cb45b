-- ===== src/VBox/Session/Tests.antt =====
-- A session of src/Hypervisor/Virtualbox/VBoxSession.cpp at work.
use libcernvm.Prelude.Texts.{codes}
use libcernvm.Prelude.{
  ℕ, ◌+◌, ◌≡◌, refl, true, false, List, [], ◌∷◌, some, arith, length, ◌&&◌, leb, if◌then◌else◌,
}
use libcernvm.Prelude.Keys.{Bytes}
use libcernvm.Prelude.Member.{mem}
use libcernvm.Parameters.{Entries, Group}
use libcernvm.Fsm.Engine.{Fsm, drain, done}
use libcernvm.Fsm.Engine.Run.{announce}
use libcernvm.VBox.States.{session_nodes, live_states, target_states}
use libcernvm.VBox.Tests.{engine, quiet_handlers}
use libcernvm.StdMap
use libcernvm.Prelude.{ltb}
use libcernvm.Prelude.Keys.{nat_key}
use libcernvm.Fsm.Graph.{registry_add, link_nodes, push_links, links_of}
use libcernvm.Fsm.Engine.{Result, skew}
use libcernvm.VBox.Session.Errors.{next_count, fsm_of}
use libcernvm.Hypervisor.Codes.{hve_external_error}
use libcernvm.VBox.Session.Commands.{destroy_handler}
use libcernvm.VBox.Session.Failures.{destroy_handler-counts_twice}
use libcernvm.VBox.Session.{VboxSession, scheduled, machine_state, entering_states, send_to}
use libcernvm.VBox.Session.Errors.{is_soon, heal_tries, move_on, error_occured}
use libcernvm.VBox.Session.Steering.{noted_state, send_to-arrives}
use libcernvm.VBox.Session.Healing.{errors_occured, in_a_row, error_occured-heals}

abbrev group : Bytes → Group
group prefix = record { prefix = prefix; locked = false; changed = false; depth = 0 }

abbrev flush : Entries → ℕ → ℕ
flush entries saves = saves + 1

-- A session whose machine is missing, with an error at 1000 ms behind it.
abbrev missing : VboxSession ℕ
missing = record {
  fsm = engine 3 [] 1;
  is_aborting = false;
  parameters = group [];
  user_data = group (codes "u/");
  properties = group (codes "p/");
  machine = group (codes "m/");
  local = group (codes "l/");
  store = record { entries = []; world = 0 };
  error_code = 0;
  error_count = 1;
  error_timestamp = 1000;
  events = [];
}

is_target : (mem 3 live_states ≡ true) × (mem 7 target_states ≡ true)
unfolding mem
is_target = (refl, refl)

send_to-arrives_example :
    (v' : VboxSession ℕ) × (fsm : Fsm) × (p : List ℕ) × (ss : ℕ) × (send_to 7 missing
      ≡ some (scheduled, v'))
    × (drain quiet_handlers (length v'.fsm.path + 1) v'.fsm ≡ some (done false fsm))
    × (fsm.current ≡ some 7)
    × (fsm.path ≡ [])
    × (fsm.entered ≡ announce p)
    × (machine_state 7 ≡ some ss)
    × (noted_state flush (entering_states flush (announce p) v') ≡ ss)
    × ((entering_states flush (announce p) v').events ≡ ss ∷ [])
send_to-arrives_example =
    send_to-arrives flush quiet_handlers 3 7 missing (λ n s. refl) refl refl refl refl refl
      is_target.0 is_target.1 (omega arith)

soon_after : in_a_row quiet_handlers ((31000, 5) ∷ []) missing ≡ true
unfolding in_a_row is_soon
soon_after = refl

error_occured-heals_example :
    ((error_occured quiet_handlers 61000 5
        (errors_occured quiet_handlers ((31000, 5) ∷ []) missing)).0
      ≡ move_on quiet_handlers
          (is_soon 61000 (errors_occured quiet_handlers ((31000, 5) ∷ []) missing).error_timestamp
            && leb heal_tries 2)
          (errors_occured quiet_handlers ((31000, 5) ∷ []) missing).fsm)
    × ((error_occured quiet_handlers 61000 5
          (errors_occured quiet_handlers ((31000, 5) ∷ []) missing)).1.error_count
        ≡ (if is_soon 61000
              (errors_occured quiet_handlers ((31000, 5) ∷ []) missing).error_timestamp
            then 3
            else 1))
error_occured-heals_example =
    error_occured-heals quiet_handlers ((31000, 5) ∷ []) 61000 5 missing refl soon_after

abbrev refuse : Bytes → ℕ × List Bytes
refuse command = (1, [])

abbrev reported : VboxSession ℕ
reported = (error_occured quiet_handlers 61000 hve_external_error missing).1

goes_on :
    (error_occured quiet_handlers 61000 hve_external_error missing).0
    ≡ Result.done true reported.fsm
unfolding error_occured is_soon next_count move_on fsm_of skew session_nodes registry_add link_nodes
    push_links links_of StdMap.assign StdMap.erase StdMap.place StdMap.find
goes_on = refl

one_ms_later : is_soon 61001 61000 ≡ true
unfolding is_soon
one_ms_later = refl

destroy_handler-counts_twice_example :
    ((destroy_handler refuse quiet_handlers flush 61000 61001 missing).1.error_count
      ≡ next_count 61000 1000 1 + 1)
    × ((destroy_handler refuse quiet_handlers flush 61000 61001 missing).0
        ≡ move_on quiet_handlers (ltb heal_tries (next_count 61000 1000 1 + 1)) reported.fsm)
destroy_handler-counts_twice_example =
    destroy_handler-counts_twice refuse quiet_handlers flush 61000 61001 missing true reported.fsm
      refl refl goes_on one_ms_later
