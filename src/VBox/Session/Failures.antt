-- ===== src/VBox/Session/Failures.antt =====
-- What the handlers of src/Hypervisor/Virtualbox/VBoxSession.cpp report when a command fails.
use libcernvm.Prelude.{ℕ, ◌+◌, ◌≡◌, ap, ◌∙◌, Bool, true, false, List, ◌&&◌, ltb, ◌==◌}
use libcernvm.Prelude.Keys.{Bytes}
use libcernvm.Parameters.{Entries}
use libcernvm.Fsm.Engine.{Fsm, Outcome, Result}
use libcernvm.VBox.Session.{VboxSession}
use libcernvm.VBox.Session.Errors.{
  stamp_of, is_soon, next_count, heal_tries, move_on, error_occured,
}
use libcernvm.Hypervisor.Codes.{hve_external_error}
use libcernvm.VBox.Session.Commands.{unregister, destroy_handler}
use libcernvm.VBox.Session.Healing.{error_occured_lem}

destroy_handler-again :
    {W : Type 0} (run : Bytes → ℕ × List Bytes) (handle : ℕ → Fsm → Outcome × Fsm)
    (flush : Entries → W → W) (first_time second_time : ℕ) (v : VboxSession W) (b : Bool)
    (fsm : Fsm)
    → v.is_aborting ≡ false
    → ((run (unregister v)).0 == 0) ≡ false
    → (error_occured handle first_time hve_external_error v).0 ≡ Result.done b fsm
    → destroy_handler run handle flush first_time second_time v
      ≡ error_occured handle second_time hve_external_error
          (error_occured handle first_time hve_external_error v).1
unfolding destroy_handler
destroy_handler-again run handle flush first_time second_time v b fsm a failed went =
    simp (a, failed, went)

-- VBoxManage fails to remove the machine of a session that is not aborting, and the engine goes on
-- behind the report of destroyVM: DestroyVM reports a second error. When that comes less than
-- SESSION_HEAL_THRESSHOLD after the first, the failure counts as two errors, and the engine jumps to
-- the state 112 when the first made their number SESSION_HEAL_TRIES or more, and skews to the state 2
-- else.
pub destroy_handler-counts_twice :
    {W : Type 0} (run : Bytes → ℕ × List Bytes) (handle : ℕ → Fsm → Outcome × Fsm)
    (flush : Entries → W → W) (first_time second_time : ℕ) (v : VboxSession W) (b : Bool)
    (fsm : Fsm)
    → v.is_aborting ≡ false
    → ((run (unregister v)).0 == 0) ≡ false
    → (error_occured handle first_time hve_external_error v).0 ≡ Result.done b fsm
    → is_soon second_time first_time ≡ true
    → ((destroy_handler run handle flush first_time second_time v).1.error_count
        ≡ next_count first_time v.error_timestamp v.error_count + 1)
      × ((destroy_handler run handle flush first_time second_time v).0
          ≡ move_on handle
              (ltb heal_tries (next_count first_time v.error_timestamp v.error_count + 1))
              (error_occured handle first_time hve_external_error v).1.fsm)
unfolding next_count stamp_of
destroy_handler-counts_twice run handle flush first_time second_time v b fsm a failed went soon =
    let (counted, stamped, going, _) = error_occured_lem handle first_time hve_external_error v a in
    let v' = (error_occured handle first_time hve_external_error v).1 in
    let (count, _, _, moved) = error_occured_lem handle second_time hve_external_error v' going in
    let soon_again : is_soon second_time v'.error_timestamp ≡ true =
      ap (is_soon second_time) (stamped ∙ ap (λ r. stamp_of r first_time v.error_timestamp) went)
      ∙ soon in
    let next : next_count second_time v'.error_timestamp v'.error_count
        ≡ next_count first_time v.error_timestamp v.error_count + 1 =
      rw (soon_again) (ap (λ n. n + 1) counted) in
    let again =
      destroy_handler-again run handle flush first_time second_time v b fsm a failed went in
    (
      ap (λ r. r.1.error_count) again ∙ count ∙ next,
      ap (λ r. r.0) again
          ∙ moved
          ∙ ap (λ c. move_on handle c v'.fsm)
              (ap
                  (λ c.
                    c && ltb heal_tries (next_count second_time v'.error_timestamp v'.error_count))
                  soon_again
                ∙ ap (ltb heal_tries) next),
    )
