-- ===== src/VBox/Session/Errors.antt =====
-- errorOccured of src/Hypervisor/Virtualbox/VBoxSession.cpp: a session heals, or gives up.
use libcernvm.Prelude.{ℕ, ◌+◌, ◌-◌, ◌%◌, Bool, true, ◌&&◌, none, some, if◌then◌else◌, ltb}
use libcernvm.Prelude.Keys.{bytes_key}
use libcernvm.Fsm.Engine.{Fsm, Outcome, Result, skew, jump}
use libcernvm.VBox.Session.{VboxSession}

-- SESSION_HEAL_THRESSHOLD and SESSION_HEAL_TRIES
abbrev pub heal_thresshold : ℕ
heal_thresshold = 60000

abbrev pub heal_tries : ℕ
heal_tries = 2

-- Whether an error comes soon after the one before; times are unsigned longs of 64 bits.
unfoldable pub is_soon : ℕ → ℕ → Bool
is_soon curr_time error_timestamp =
    ltb ((curr_time + 18446744073709551616 - error_timestamp) % 18446744073709551616)
      heal_thresshold

-- The number of errors in a row, with the new one.
unfoldable pub next_count : ℕ → ℕ → ℕ → ℕ
next_count curr_time error_timestamp error_count =
    if is_soon curr_time error_timestamp then error_count + 1 else 1

unfoldable pub fsm_of : Result → Fsm → Fsm
fsm_of (Result.done _ fsm) old = fsm
fsm_of (Result.thrown fsm) old = fsm
fsm_of Result.fault old = old

-- errorTimestamp behind the engine: what FSMJump throws leaves errorOccured before it is set.
unfoldable pub stamp_of : Result → ℕ → ℕ → ℕ
stamp_of (Result.done _ _) curr_time old = curr_time
stamp_of (Result.thrown _) curr_time old = old
stamp_of Result.fault curr_time old = old

module _ (handle : ℕ → Fsm → Outcome × Fsm) where
  -- errorOccured: the error is healed through the state 2, or the engine jumps to the state 112. The
  -- result of the engine is that of FSMJump, or of FSMSkew as one that is done.
  unfoldable pub move_on : Bool → Fsm → Result
  move_on fatal fsm =
      if fatal
      then jump handle 112 fsm
      else elim (skew 2 fsm) [ none ↦ Result.fault | some fsm' ↦ Result.done true fsm' ]

  unfoldable pub error_occured : {W : Type 0} → ℕ → ℕ → VboxSession W → Result × VboxSession W
  error_occured curr_time err_no v =
      let count = next_count curr_time v.error_timestamp v.error_count in
      let fatal = is_soon curr_time v.error_timestamp && ltb heal_tries count in
      let moved = move_on fatal v.fsm in
      if v.is_aborting then (Result.done true v.fsm, v) else (
        moved,
        record v {
          fsm = fsm_of moved v.fsm;
          error_code = err_no;
          error_count = count;
          error_timestamp = stamp_of moved curr_time v.error_timestamp;
        },
      )
