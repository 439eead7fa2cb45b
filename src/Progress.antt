-- ===== src/Progress.antt =====
-- ProgressTask and its kinds of src/ProgressFeedback.cpp and include/CernVM/ProgressFeedback.h: the
-- tree of tasks, and what a task tells its listeners and its parent. Tasks live in a heap and are
-- named by their place in it. The arithmetic on doubles is a parameter.
pub mod Tasks
pub mod Flags
pub mod Latch
pub mod Unheard
mod Tests
mod Single
pub mod Counting
mod Fuel
pub mod Calls
pub mod Notices
use libcernvm.Prelude.{
  ℕ, zero, suc, ◌+◌, Bool, true, false, not, ◌&&◌, List, [], ◌∷◌, ◌++◌, Option, none, some,
  if◌then◌else◌, ◌==◌, length, get_elem?, set,
}
use libcernvm.Prelude.Keys.{Bytes}

-- tasks[i]: 0, 1, or 2 with the task in taskObjects[i]. A task object behind a 0 or a 1 is never
-- looked at, and is left out.
pub data Slot : Type 0 where
  pending : Slot
  finished : Slot
  subtask : ℕ → Slot

-- FiniteTask, VariableTask and BooleanTask with their own fields
pub data Kind : Type 0 where
  finite : List Slot → ℕ → Kind
  variable : ℕ → ℕ → Bool → ℕ → Kind
  boolean : Kind

pub record Task : Type 0 where
  pub kind : Kind
  pub parent : Option ℕ
  pub last_message : Bytes
  pub started : Bool
  pub completed : Bool

pub record Doubles (D : Type 0) : Type 0 where
  pub one : D
  pub zero_value : D
  pub of_size : ℕ → D
  pub add : D → D → D
  pub mul : D → D → D
  pub div : D → D → D

-- An event of a task, as `fire` gets it.
pub data Event (D : Type 0) : Type 0 where
  started_event : ℕ → Bytes → Event D
  completed_event : ℕ → Bytes → Event D
  failed_event : ℕ → Bytes → ℕ → Event D
  progress_event : ℕ → Bytes → D → Event D
  lengthy_event : ℕ → Bytes → Bool → Event D

pub record Heap (D : Type 0) : Type 0 where
  pub tasks : List Task
  pub events : List (Event D)

-- isCompleted of each kind; `child` asks a sub-task
unfoldable pub slots_completed : (ℕ → Bool) → List Slot → Bool
slots_completed child [] = true
slots_completed child (Slot.pending ∷ slots) = false
slots_completed child (Slot.finished ∷ slots) = slots_completed child slots
slots_completed child (Slot.subtask i ∷ slots) = child i && slots_completed child slots

unfoldable pub task_completed : (ℕ → Bool) → Task → Bool
task_completed child t = elim t.kind [
  | Kind.finite slots _ ↦
      if t.completed then true else if not t.started then false else slots_completed child slots
  | Kind.variable max current _ _ ↦
      if not t.started then false else if t.completed then true else current == max
  | Kind.boolean ↦ if t.completed then true else if not t.started then false else true
]

unfoldable pub is_completed : ℕ → List Task → ℕ → Bool
is_completed zero tasks i = false
is_completed (suc fuel) tasks i = elim (get_elem? tasks i) [
  | none ↦ false
  | some t ↦ task_completed (is_completed fuel tasks) t
]

module _ {D : Type 0} (ops : Doubles D) where
  -- The loop of getProgress of a FiniteTask
  unfoldable pub slots_progress : (ℕ → D) → D → List Slot → D → D
  slots_progress child step_size [] value = value
  slots_progress child step_size (Slot.pending ∷ slots) value =
      slots_progress child step_size slots value
  slots_progress child step_size (Slot.finished ∷ slots) value =
      slots_progress child step_size slots (ops.add value step_size)
  slots_progress child step_size (Slot.subtask i ∷ slots) value =
      slots_progress child step_size slots (ops.add value (ops.mul step_size (child i)))

  -- getProgress of each kind
  unfoldable pub task_progress : (ℕ → D) → Task → D
  task_progress child t = elim t.kind [
    | Kind.finite slots _ ↦
        if t.completed
        then ops.one
        else if not t.started
        then ops.zero_value
        else slots_progress child (ops.div ops.one (ops.of_size (length slots))) slots
            ops.zero_value
    | Kind.variable max current _ _ ↦
        if t.completed
        then ops.one
        else if not t.started
        then ops.zero_value
        else ops.div (ops.of_size current) (ops.of_size max)
    | Kind.boolean ↦ if t.completed then ops.one else ops.zero_value
  ]

  unfoldable pub get_progress : ℕ → List Task → ℕ → D
  get_progress zero tasks i = ops.zero_value
  get_progress (suc fuel) tasks i = elim (get_elem? tasks i) [
    | none ↦ ops.zero_value
    | some t ↦ task_progress (get_progress fuel tasks) t
  ]

module _ {D : Type 0} where
  unfoldable pub fire : Event D → Heap D → Heap D
  fire e h = record h { events = h.events ++ e ∷ [] }

  -- Assignments to fields of a task
  unfoldable pub modify : ℕ → (Task → Task) → Heap D → Heap D
  modify i f h = elim (get_elem? h.tasks i) [
    | none ↦ h
    | some t ↦ record h { tasks = set h.tasks i (f t) }
  ]

abbrev pub with_message : Bytes → Task → Task
with_message message t = record t { last_message = message }

abbrev pub as_started : Bytes → Task → Task
as_started message t = record t { started = true; last_message = message }

abbrev pub as_completed : Bytes → Task → Task
as_completed message t = record t { completed = true; last_message = message }

module _ {D : Type 0} where
  -- What a null parent is not asked.
  unfoldable pub to_parent : (ℕ → Heap D → Heap D) → ℕ → Heap D → Heap D
  to_parent tell i h = elim (get_elem? h.tasks i) [
    | none ↦ h
    | some t ↦ elim t.parent [ none ↦ h | some p ↦ tell p h ]
  ]

  -- _notifyStarted; the fuel is that of the way up.
  unfoldable pub notify_started : ℕ → Bytes → ℕ → Heap D → Heap D
  notify_started zero message i h = h
  notify_started (suc fuel) message i h =
      let told =
        to_parent (notify_started fuel message) i
          (fire (Event.started_event i message) (modify i (as_started message) h)) in
      elim (get_elem? h.tasks i) [ none ↦ h | some t ↦ if t.started then h else told ]

  -- _notifyFailed
  unfoldable pub notify_failed : ℕ → Bytes → ℕ → ℕ → Heap D → Heap D
  notify_failed zero message error_code i h = h
  notify_failed (suc fuel) message error_code i h =
      to_parent (notify_failed fuel message error_code) i
        (fire (Event.failed_event i message error_code) (modify i (with_message message) h))

  -- _notifyLengthyTask
  unfoldable pub notify_lengthy_task : ℕ → Bytes → Bool → ℕ → Heap D → Heap D
  notify_lengthy_task zero message is_lengthy i h = h
  notify_lengthy_task (suc fuel) message is_lengthy i h =
      to_parent (notify_lengthy_task fuel message is_lengthy) i
        (fire (Event.lengthy_event i message is_lengthy) h)

module _ {D : Type 0} (ops : Doubles D) where
  -- fireProgress with getProgress; the fuel of the way down is the number of tasks.
  unfoldable pub fire_progress : Bytes → ℕ → Heap D → Heap D
  fire_progress message i h =
      fire (Event.progress_event i message (get_progress ops (length h.tasks) h.tasks i)) h

  -- _notifyCompleted; `tell` is the _notifyUpdate of the parent.
  unfoldable pub notify_completed : (ℕ → Heap D → Heap D) → Bytes → ℕ → Heap D → Heap D
  notify_completed tell message i h =
      let told = to_parent tell i (
        fire (Event.completed_event i message)
          (fire (Event.progress_event i message ops.one) (modify i (as_completed message) h))) in
      elim (get_elem? h.tasks i) [ none ↦ h | some t ↦ if t.completed then h else told ]

  -- _notifyUpdate
  unfoldable pub notify_update : ℕ → Bytes → ℕ → Heap D → Heap D
  notify_update zero message i h = h
  notify_update (suc fuel) message i h =
      let h' = modify i (with_message message) h in
      let tell = notify_update fuel message in
      if is_completed (length h'.tasks) h'.tasks i
      then notify_completed tell message i h'
      else to_parent tell i (fire_progress message i h')

  -- _forwardProgress
  unfoldable pub forward_progress : ℕ → Bytes → ℕ → Heap D → Heap D
  forward_progress zero message i h = h
  forward_progress (suc fuel) message i h =
      to_parent (forward_progress fuel message) i
        (fire_progress message i (modify i (with_message message) h))
