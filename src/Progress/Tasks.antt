-- ===== src/Progress/Tasks.antt =====
-- The methods of the tasks of src/ProgressFeedback.cpp.
use libcernvm.Prelude.Texts.{codes}
use libcernvm.Prelude.{
  ℕ, zero, suc, ◌+◌, ◌-◌, Bool, true, false, List, [], ◌∷◌, ◌++◌, Option, none, some, if◌then◌else◌,
  ltb, leb, ◌==◌, length, get_elem?, set, get_or, take, replicate, is_nil,
}
use libcernvm.Prelude.Keys.{Bytes}
use libcernvm.Progress.{
  Slot, Kind, Task, Doubles, Heap, modify, with_message, to_parent, notify_started, notify_failed,
  notify_lengthy_task, notify_completed, notify_update,
}

-- The message of complete and fail, of an empty text.
unfoldable pub own_message : Bytes → Bytes → Bytes → Bytes
own_message word last_message message =
    if is_nil message
    then if is_nil last_message then message else word ++ last_message
    else message

abbrev pub completed_word : Bytes
completed_word = codes "Completed "

abbrev pub failed_word : Bytes
failed_word = codes "Failed "

unfoldable pub last_message_of : List Task → ℕ → Bytes
last_message_of tasks i = elim (get_elem? tasks i) [ none ↦ [] | some t ↦ t.last_message ]

-- The fuel of a way up: a parent stands before its children.
unfoldable pub ways : {D : Type 0} → Heap D → ℕ
ways h = length h.tasks

-- What begin makes: a task with its parent and its message.
unfoldable pub new_task : Kind → ℕ → Bytes → Task
new_task kind parent message = record {
  kind = kind;
  parent = some parent;
  last_message = message;
  started = false;
  completed = false;
}

-- setMax of a FiniteTask: the slots that are kept, and pending ones behind them.
unfoldable pub resized : ℕ → List Slot → List Slot
resized max_tasks slots =
    if ltb max_tasks (length slots)
    then take max_tasks slots
    else slots ++ replicate (max_tasks - length slots) Slot.pending

-- tasks[taskIndex], when there is such a slot
unfoldable pub take_slot : Slot → Kind → Kind
take_slot slot (Kind.finite slots task_index) =
    if ltb task_index (length slots)
    then Kind.finite (set slots task_index slot) (task_index + 1)
    else Kind.finite slots task_index
take_slot slot (Kind.variable max current show_spinner spinner_index) =
    Kind.variable max current show_spinner spinner_index
take_slot slot Kind.boolean = Kind.boolean

-- setMax of a FiniteTask and of a VariableTask
unfoldable pub with_max : ℕ → Kind → Kind
with_max n (Kind.finite slots task_index) = Kind.finite (resized n slots) task_index
with_max n (Kind.variable _ current show_spinner spinner_index) =
    Kind.variable n current show_spinner spinner_index
with_max n Kind.boolean = Kind.boolean

-- setSpinner
unfoldable pub with_spinner : Bool → Kind → Kind
with_spinner enabled (Kind.finite slots task_index) = Kind.finite slots task_index
with_spinner enabled (Kind.variable max current _ spinner_index) =
    Kind.variable max current enabled spinner_index
with_spinner enabled Kind.boolean = Kind.boolean

abbrev pub with_kind : (Kind → Kind) → Task → Task
with_kind f t = record t { kind = f t.kind }

-- The loop of restart over the slots: those that are done are pending again.
unfoldable pub reopened : List Slot → List Slot
reopened [] = []
reopened (Slot.finished ∷ slots) = Slot.pending ∷ reopened slots
reopened (Slot.pending ∷ slots) = Slot.pending ∷ reopened slots
reopened (Slot.subtask i ∷ slots) = Slot.subtask i ∷ reopened slots

unfoldable pub reset_kind : Kind → Kind
reset_kind (Kind.finite slots _) = Kind.finite (reopened slots) 0
reset_kind (Kind.variable max _ show_spinner spinner_index) =
    Kind.variable max 0 show_spinner spinner_index
reset_kind Kind.boolean = Kind.boolean

-- The fields that restart resets.
unfoldable pub reset_task : Task → Task
reset_task t = record t {
  started = if t.completed then false else t.started;
  completed = false;
  kind = reset_kind t.kind;
}

unfoldable pub subtasks : List Slot → List ℕ
subtasks [] = []
subtasks (Slot.subtask i ∷ slots) = i ∷ subtasks slots
subtasks (Slot.pending ∷ slots) = subtasks slots
subtasks (Slot.finished ∷ slots) = subtasks slots

unfoldable pub subtasks_of : List Task → ℕ → List ℕ
subtasks_of tasks i = elim (get_elem? tasks i) [
  | none ↦ []
  | some t ↦ elim t.kind [ Kind.finite slots _ ↦ subtasks slots | _ ↦ [] ]
]

module _ {D : Type 0} where
  unfoldable pub each : (ℕ → Heap D → Heap D) → List ℕ → Heap D → Heap D
  each f [] h = h
  each f (i ∷ is) h = each f is (f i h)

  -- restart(message, false), with the sub-tasks; the fuel is that of the way down.
  unfoldable pub restart_quietly : ℕ → ℕ → Heap D → Heap D
  restart_quietly zero i h = h
  restart_quietly (suc fuel) i h =
      each (restart_quietly fuel) (subtasks_of h.tasks i) (modify i reset_task h)

module _ {D : Type 0} where
  -- _notifyStarted with fuel for the whole way
  unfoldable pub start_all : Bytes → ℕ → Heap D → Heap D
  start_all message i h = notify_started (ways h) message i h

  unfoldable pub mark_lengthy : ℕ → Bool → Bytes → Heap D → Heap D
  mark_lengthy i is_lengthy message h = notify_lengthy_task (ways h) message is_lengthy i h

  unfoldable pub set_message : ℕ → Bytes → Heap D → Heap D
  set_message i message h = modify i (with_message message) h

  unfoldable pub set_spinner : ℕ → Bool → Heap D → Heap D
  set_spinner i enabled h = modify i (with_kind (with_spinner enabled)) h

module _ {D : Type 0} (ops : Doubles D) where
  -- _notifyUpdate with fuel for the whole way
  unfoldable pub update_all : Bytes → ℕ → Heap D → Heap D
  update_all message i h = notify_update ops (ways h) message i h

  unfoldable pub complete : ℕ → Bytes → Heap D → Heap D
  complete i message h =
      let msg = own_message completed_word (last_message_of h.tasks i) message in
      notify_completed ops (notify_update ops (ways h) msg) msg i h

  unfoldable pub fail : ℕ → Bytes → ℕ → Heap D → Heap D
  fail i message error_code h =
      let msg = own_message failed_word (last_message_of h.tasks i) message in
      let h' =
        notify_failed (ways h) msg error_code i (modify i (λ t. record t { completed = true }) h) in
      to_parent (update_all message) i h'

  unfoldable pub doing : ℕ → Bytes → Heap D → Heap D
  doing i message h = update_all message i (start_all message i h)

  -- `if (started && triggerUpdate) _notifyUpdate( lastMessage )`
  unfoldable pub update_started : ℕ → Bool → Heap D → Heap D
  update_started i trigger_update h = elim (get_elem? h.tasks i) [
    | none ↦ h
    | some t ↦ if t.started then if trigger_update then update_all t.last_message i h else h else h
  ]

  unfoldable pub set_max : ℕ → ℕ → Bool → Heap D → Heap D
  set_max i n trigger_update h =
      update_started i trigger_update (modify i (with_kind (with_max n)) h)

  unfoldable pub done : ℕ → Bytes → Heap D → Heap D
  done i message h =
      update_all message i (modify i (with_kind (take_slot Slot.finished)) (start_all message i h))

  -- begin: the new task stands at the end of the heap.
  unfoldable pub begin : Kind → ℕ → Bytes → Heap D → ℕ × Heap D
  begin kind i message h =
      let h' = start_all message i h in
      let at = length h'.tasks in
      (
        at,
        update_all message i (
            modify i (with_kind (take_slot (Slot.subtask at)))
              (record h' { tasks = h'.tasks ++ new_task kind i message ∷ [] })),
      )

  -- `if (triggerUpdate)` of restart
  unfoldable pub update_again : ℕ → Bytes → Bool → Heap D → Heap D
  update_again i message trigger_update h =
      if trigger_update then update_all message i (start_all message i h) else h

  unfoldable pub restart : ℕ → Bytes → Bool → Heap D → Heap D
  restart i message trigger_update h =
      update_again i message trigger_update (restart_quietly (ways h) i h)

-- '|', '/', '-' and '\'
abbrev pub suffixes : Bytes
suffixes = codes "|/-\\"

-- A text without its last four bytes; the length is a size_t, so that a shorter text is whole.
unfoldable pub without_suffix : Bytes → Bytes
without_suffix message =
    if ltb (length message) 4 then message else take (length message - 4) message

-- The next spinner and the message with its suffix; none is the read before an empty message.
unfoldable pub spin : ℕ → Bytes → Option (ℕ × Bytes × Bytes)
spin spinner_index last_message = elim (get_elem? last_message (length last_message - 1)) [
  | none ↦ none
  | some c ↦
      let kept =
        if c == get_or suffixes spinner_index 0
        then without_suffix last_message
        else last_message in
      let next = if leb 4 (spinner_index + 1) then 0 else spinner_index + 1 in
      some (next, kept, kept ++ 32 ∷ 32 ∷ 32 ∷ get_or suffixes next 0 ∷ [])
]

-- What update assigns to the fields of a kind and to lastMessage, and the message that it tells.
unfoldable pub spun : ℕ → Bytes → Kind → Option (Kind × Bytes × Bytes)
spun value last_message (Kind.variable max _ show_spinner spinner_index) =
    if show_spinner
    then elim (spin spinner_index last_message) [
      | none ↦ none
      | some (next, kept, message) ↦ some (Kind.variable max value show_spinner next, kept, message)
    ]
    else some (Kind.variable max value show_spinner spinner_index, last_message, last_message)
spun value last_message kind = some (kind, last_message, last_message)

abbrev pub with_both : Kind → Bytes → Task → Task
with_both kind message t = record t { kind = kind; last_message = message }

module _ {D : Type 0} (ops : Doubles D) where
  -- update of a VariableTask
  unfoldable pub update : ℕ → ℕ → Heap D → Option (Heap D)
  update i value h =
      let h' = start_all (last_message_of h.tasks i) i h in
      elim (get_elem? h'.tasks i) [
        | none ↦ some h'
        | some t ↦ elim (spun value t.last_message t.kind) [
          | none ↦ none
          | some (kind, kept, message) ↦
              some (update_all ops message i (modify i (with_both kind kept) h'))
        ]
      ]
