-- ===== src/Progress/Unheard.antt =====
-- A VariableTask of src/ProgressFeedback.cpp that is completed before it has started.
use libcernvm.Prelude.{
  ℕ, zero, suc, ◌≡◌, refl, Bool, true, false, List, [], ◌∷◌, some, inl, inr, arith, if◌then◌else◌,
  ◌==◌, ==_iff, get_elem?, Bool-cases,
}
use libcernvm.Progress.{Slot, Kind, Task, is_completed, task_completed, slots_completed}

unfoldable pub holds : ℕ → List Slot → Bool
holds i [] = false
holds i (Slot.pending ∷ slots) = holds i slots
holds i (Slot.finished ∷ slots) = holds i slots
holds i (Slot.subtask j ∷ slots) = if i == j then true else holds i slots

slots_completed-holds :
    (child : ℕ → Bool) (i : ℕ) (slots : List Slot)
    → child i ≡ false
    → holds i slots ≡ true
    → slots_completed child slots ≡ false
unfolding slots_completed holds
slots_completed-holds child i [] c h = ground (arith, h)
slots_completed-holds child i (Slot.pending ∷ slots) c h = refl
slots_completed-holds child i (Slot.finished ∷ slots) c h = slots_completed-holds child i slots c h
slots_completed-holds child i (Slot.subtask j ∷ slots) c h = elim (Bool-cases (i == j)) [
  | inl same ↦
      let e : i ≡ j = (==_iff i j).0 same in let cj : child j ≡ false = rw (← e) c in rw cj refl
  | inr differ ↦
      let rest = slots_completed-holds child i slots c (ground (arith, h, differ)) in
      ground (arith, rest)
]

module _ {max current spinner_index : ℕ} {show_spinner : Bool} (i : ℕ) (t : Task) where
  variable-unstarted :
      (fuel : ℕ) (tasks : List Task)
      → get_elem? tasks i ≡ some t
      → t.kind ≡ Kind.variable max current show_spinner spinner_index
      → t.started ≡ false
      → is_completed fuel tasks i ≡ false
  unfolding is_completed task_completed
  variable-unstarted zero tasks there kind new = refl
  variable-unstarted (suc fuel) tasks there kind new =
      rw (there, is_completed) (rw (kind, task_completed) (rw new refl))

  -- A FiniteTask that holds a VariableTask that has not started, and is not marked as completed itself,
  -- is not completed, whatever the rest of it, and whether or not the VariableTask is marked as completed.
  pub is_completed-unheard :
      (fuel p task_index : ℕ) (tasks : List Task) (s : Task) (slots : List Slot)
      → get_elem? tasks i ≡ some t
      → t.kind ≡ Kind.variable max current show_spinner spinner_index
      → t.started ≡ false
      → get_elem? tasks p ≡ some s
      → s.kind ≡ Kind.finite slots task_index
      → s.completed ≡ false
      → holds i slots ≡ true
      → is_completed fuel tasks p ≡ false
  unfolding is_completed task_completed
  is_completed-unheard zero p task_index tasks s slots there kind new above finite on holding = refl
  is_completed-unheard (suc fuel) p task_index tasks s slots there kind new above finite on
        holding =
      let child = variable-unstarted fuel tasks there kind new in
      let rest = slots_completed-holds (is_completed fuel tasks) i slots child holding in
      rw (above, is_completed)
        (rw (finite, task_completed)
          (elim (Bool-cases s.started) [
            | inl started ↦ rw (on, started, rest) refl
            | inr idle ↦ rw (on, idle) refl
          ]))
