-- ===== src/VBox/Session/Healing.antt =====
-- The errors that a session of src/Hypervisor/Virtualbox/VBoxSession.cpp meets in a row.
use libcernvm.Prelude.{
  ℕ, ◌+◌, ◌≡◌, refl, ap, ◌∙◌, Bool, true, false, ◌&&◌, List, [], ◌∷◌, arith, if◌then◌else◌, ltb,
  leb, length,
}
use libcernvm.Fsm.Engine.{Fsm, Outcome}
use libcernvm.VBox.Session.{VboxSession}
use libcernvm.VBox.Session.Errors.{
  stamp_of, is_soon, next_count, heal_tries, move_on, error_occured,
}

module _ {W : Type 0} (handle : ℕ → Fsm → Outcome × Fsm) where
  -- Errors, each with its time and its number, one after the other.
  unfoldable pub errors_occured : List (ℕ × ℕ) → VboxSession W → VboxSession W
  errors_occured [] v = v
  errors_occured ((time, err_no) ∷ errors) v =
      errors_occured errors (error_occured handle time err_no v).1

  -- Whether every error comes soon after the time that the session keeps when it comes.
  unfoldable pub in_a_row : List (ℕ × ℕ) → VboxSession W → Bool
  in_a_row [] v = true
  in_a_row ((time, err_no) ∷ errors) v =
      is_soon time v.error_timestamp && in_a_row errors (error_occured handle time err_no v).1

  pub error_occured_lem :
      (time err_no : ℕ) (v : VboxSession W)
      → v.is_aborting ≡ false
      → ((error_occured handle time err_no v).1.error_count
          ≡ next_count time v.error_timestamp v.error_count)
        × ((error_occured handle time err_no v).1.error_timestamp
            ≡ stamp_of (error_occured handle time err_no v).0 time v.error_timestamp)
        × ((error_occured handle time err_no v).1.is_aborting ≡ false)
        × ((error_occured handle time err_no v).0
            ≡ move_on handle
                (is_soon time v.error_timestamp
                  && ltb heal_tries (next_count time v.error_timestamp v.error_count))
                v.fsm)
  unfolding error_occured
  error_occured_lem time err_no v a = rw (a, error_occured) (refl, refl, refl, refl)

  errors_in_a_row :
      (errors : List (ℕ × ℕ)) (v : VboxSession W)
      → v.is_aborting ≡ false
      → in_a_row errors v ≡ true
      → ((errors_occured errors v).error_count ≡ v.error_count + length errors)
        × ((errors_occured errors v).is_aborting ≡ false)
  unfolding in_a_row errors_occured next_count
  errors_in_a_row [] v a h = (omega arith, a)
  errors_in_a_row ((time, err_no) ∷ errors) v a h =
      let (counted, _, going, _) = error_occured_lem time err_no v a in
      let soon : is_soon time v.error_timestamp ≡ true = ground (arith, h) in
      let row : in_a_row errors (error_occured handle time err_no v).1 ≡ true = ground (arith, h) in
      let more : (error_occured handle time err_no v).1.error_count ≡ v.error_count + 1 =
        counted ∙ rw soon refl in
      let rest = errors_in_a_row errors (error_occured handle time err_no v).1 going row in
      (omega (arith, rest.0, more), rest.1)

  -- After errors that each come less than SESSION_HEAL_THRESSHOLD after the time that the session keeps,
  -- which is that of the error before unless the engine threw then, in a session that is not aborting:
  -- the next error makes the engine jump to the state 112 when it comes as soon
  -- and there were SESSION_HEAL_TRIES or more of them, with those counted before the first; and
  -- otherwise the engine skews to the state 2, to heal. An error that comes later is counted as the
  -- first one.
  pub error_occured-heals :
      (errors : List (ℕ × ℕ)) (time err_no : ℕ) (v : VboxSession W)
      → v.is_aborting ≡ false
      → in_a_row errors v ≡ true
      → ((error_occured handle time err_no (errors_occured errors v)).0
          ≡ move_on handle
              (is_soon time (errors_occured errors v).error_timestamp
                && leb heal_tries (v.error_count + length errors))
              (errors_occured errors v).fsm)
        × ((error_occured handle time err_no (errors_occured errors v)).1.error_count ≡ (
            if is_soon time (errors_occured errors v).error_timestamp
            then v.error_count + length errors + 1
            else 1))
  unfolding next_count
  error_occured-heals errors time err_no v a h =
      let (count, going) = errors_in_a_row errors v a h in
      let w = errors_occured errors v in
      let (counted, _, _, moved) = error_occured_lem time err_no w going in
      (
        moved ∙ ap (λ b. move_on handle b w.fsm) (ground (arith, count)),
        counted ∙ ground (arith, count),
      )
