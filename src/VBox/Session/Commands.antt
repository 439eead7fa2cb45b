-- ===== src/VBox/Session/Commands.antt =====
-- The commands of src/Hypervisor/Virtualbox/VBoxSession.cpp that steer a machine: controlVM, the
-- handlers that call it, discardstate, getDiskInfo and getUserData. What runs a command of VBoxManage,
-- and answers with a number and lines, is a parameter; reports of progress are left out.
use libcernvm.Prelude.Texts.{codes}
use libcernvm.Prelude.{
  ℕ, true, false, List, [], ◌∷◌, ◌++◌, Option, some, if◌then◌else◌, is_nil, ◌==◌,
}
use libcernvm.Prelude.Keys.{Bytes, bytes_key}
use libcernvm.StdMap.{Map}
use libcernvm.Parameters.{Entries, get}
use libcernvm.Fsm.Engine.{Fsm, Outcome, Result}
use libcernvm.Utilities.Text.{tokenize}
use libcernvm.Hypervisor.Codes.{hve_control_error, hve_invalid_state, hve_external_error}
use libcernvm.VBox.Macros.{macro_replace}
use libcernvm.VBox.Session.{VboxSession, destroy_vm}
use libcernvm.Hypervisor.Sessions.Defaults.{vboxid_key}
use libcernvm.VBox.Session.Errors.{error_occured}

module _ {W : Type 0} where
  unfoldable pub vboxid : VboxSession W → Bytes
  vboxid v = get v.parameters v.store.entries vboxid_key [] false

  unfoldable pub unregister : VboxSession W → Bytes
  unregister v = codes "unregistervm " ++ vboxid v ++ codes " --delete"

  -- getUserData; `fuel` is that of macroReplace
  unfoldable pub get_user_data : ℕ → VboxSession W → Option Bytes
  get_user_data fuel v =
      let patched_user_data = get v.parameters v.store.entries (codes "userData") [] false in
      if v.is_aborting
      then some []
      else if is_nil patched_user_data
      then some patched_user_data
      else macro_replace fuel (some v.user_data) v.store.entries patched_user_data

  module _ (run : Bytes → ℕ × List Bytes) where
    unfoldable pub get_disk_info : Bytes → VboxSession W → Map Bytes Bytes
    get_disk_info disk v =
        let (ans, lines) = run (codes "showhdinfo " ++ b'"' ∷ disk ++ b'"' ∷ []) in
        if v.is_aborting then [] else if ans == 0 then tokenize lines b':' else []

    unfoldable pub control_vm : Bytes → VboxSession W → ℕ
    control_vm how v =
        let (ans, _) = run (codes "controlvm " ++ vboxid v ++ 32 ∷ how) in
        if v.is_aborting then hve_invalid_state else if ans == 0 then 0 else hve_control_error

    module _ (handle : ℕ → Fsm → Outcome × Fsm) where
      -- What a handler does with the answer of a command, at a time.
      unfoldable pub handled : ℕ → ℕ → VboxSession W → Result × VboxSession W
      handled curr_time ans v =
          let failed = error_occured handle curr_time ans v in
          if v.is_aborting
          then (Result.done true v.fsm, v)
          else if ans == 0
          then (Result.done true v.fsm, v)
          else failed

      unfoldable pub poweroff_vm : ℕ → VboxSession W → Result × VboxSession W
      poweroff_vm curr_time v = handled curr_time (control_vm (codes "poweroff") v) v

      unfoldable pub save_vm_state : ℕ → VboxSession W → Result × VboxSession W
      save_vm_state curr_time v = handled curr_time (control_vm (codes "savestate") v) v

      unfoldable pub pause_vm : ℕ → VboxSession W → Result × VboxSession W
      pause_vm curr_time v = handled curr_time (control_vm (codes "pause") v) v

      unfoldable pub resume_vm : ℕ → VboxSession W → Result × VboxSession W
      resume_vm curr_time v = handled curr_time (control_vm (codes "resume") v) v

      unfoldable pub discard_vm_state : ℕ → VboxSession W → Result × VboxSession W
      discard_vm_state curr_time v = handled curr_time (run (codes "discardstate " ++ vboxid v)).0 v

      -- DestroyVM over destroyVM, each with the time of its report of an error.
      unfoldable pub destroy_handler :
          (Entries → W → W) → ℕ → ℕ → VboxSession W → Result × VboxSession W
      destroy_handler flush first_time second_time v =
          let (ans, _) = run (unregister v) in
          let destroyed = destroy_vm flush (ans == 0) v in
          let (result, v') = error_occured handle first_time hve_external_error v in
          let again = error_occured handle second_time hve_external_error v' in
          if v.is_aborting
          then (Result.done true v.fsm, v)
          else if ans == 0
          then (Result.done true destroyed.1.fsm, destroyed.1)
          else elim result [
            | Result.done _ _ ↦ again
            | Result.thrown fsm ↦ (Result.thrown fsm, v')
            | Result.fault ↦ (Result.fault, v')
          ]
