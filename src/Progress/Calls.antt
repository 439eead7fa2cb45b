-- ===== src/Progress/Calls.antt =====
-- Sequences of calls of the methods of tasks of src/ProgressFeedback.cpp, other than restart.
use libcernvm.Prelude.{
  ℕ, ◌≡◌, refl, sym, ◌∙◌, Bool, true, false, List, [], ◌∷◌, ◌++◌, Option, none, some, inl, inr,
  if◌then◌else◌, length, get_elem?, Option-cases,
}
use mathlib.Core.Path.{subst}
use libcernvm.Prelude.Keys.{Bytes}
use libcernvm.Progress.{
  notify_failed, notify_update, Slot, Kind, Task, Doubles, Heap, modify, with_message,
}
use libcernvm.Progress.Tasks.{
  complete, fail, doing, mark_lengthy, set_max, done, begin, set_message, set_spinner, update,
  update_all, start_all, update_started, take_slot, new_task, with_kind, with_max, with_spinner,
  with_both, spun, last_message_of, ways, own_message, completed_word, failed_word,
}
use libcernvm.Progress.Flags.{flag-snoc, has_started, has_completed}
use libcernvm.Progress.Latch.{Latched, modify-Latched}
use libcernvm.Progress.Notices.{
  Keeps, to_parent-Keeps, notify_started-Keeps, notify_failed-Keeps, notify_lengthy_task-Keeps,
  notify_completed-Keeps, notify_update-Keeps,
}

pub data Call : Type 0 where
  complete_call : ℕ → Bytes → Call
  fail_call : ℕ → Bytes → ℕ → Call
  doing_call : ℕ → Bytes → Call
  lengthy_call : ℕ → Bool → Bytes → Call
  set_max_call : ℕ → ℕ → Bool → Call
  done_call : ℕ → Bytes → Call
  begin_call : Kind → ℕ → Bytes → Call
  message_call : ℕ → Bytes → Call
  spinner_call : ℕ → Bool → Call
  update_call : ℕ → ℕ → Call

abbrev OnSome : {A : Type 0} → (A → Type 0) → Option A → Type 0
OnSome P none = Unit {0}
OnSome P (some a) = P a

module _ {D : Type 0} (ops : Doubles D) where
  -- A call, made on any task of the heap; none is the read before an empty message.
  unfoldable pub make : Call → Heap D → Option (Heap D)
  make (Call.complete_call i message) h = some (complete ops i message h)
  make (Call.fail_call i message error_code) h = some (fail ops i message error_code h)
  make (Call.doing_call i message) h = some (doing ops i message h)
  make (Call.lengthy_call i is_lengthy message) h = some (mark_lengthy i is_lengthy message h)
  make (Call.set_max_call i n trigger_update) h = some (set_max ops i n trigger_update h)
  make (Call.done_call i message) h = some (done ops i message h)
  make (Call.begin_call kind i message) h = some (begin ops kind i message h).1
  make (Call.message_call i message) h = some (set_message i message h)
  make (Call.spinner_call i enabled) h = some (set_spinner i enabled h)
  make (Call.update_call i value) h = update ops i value h

  unfoldable pub make_all : List Call → Heap D → Option (Heap D)
  make_all [] h = some h
  make_all (c ∷ calls) h = elim (make c h) [ none ↦ none | some h' ↦ make_all calls h' ]

  update_all-Keeps : (message : Bytes) → Keeps (update_all ops message)
  unfolding update_all
  update_all-Keeps message i h l = notify_update-Keeps ops (ways h) message i h l

  start_all-Keeps : (message : Bytes) → Keeps (start_all {D = D} message)
  unfolding start_all
  start_all-Keeps message i h l = notify_started-Keeps (ways h) message i h l

  update_started-Latched :
      (i : ℕ) (trigger_update : Bool) (h : Heap D)
      → Latched h
      → Latched (update_started ops i trigger_update h)
  unfolding update_started
  update_started-Latched i trigger_update h l = elim (Option-cases (get_elem? h.tasks i)) [
    | inl missing ↦ rw (missing, update_started) l
    | inr (t, there) ↦ rw (there, update_started) (two t.started trigger_update t.last_message)
  ]
    where
      two :
          (a b : Bool) (message : Bytes)
          → Latched (if a then if b then update_all ops message i h else h else h)
      two true true message = update_all-Keeps message i h l
      two true false message = l
      two false b message = l

  with_kind-Latched :
      (i : ℕ) (f : Kind → Kind) (h : Heap D) → Latched h → Latched (modify i (with_kind f) h)
  with_kind-Latched i f h l = modify-Latched i (with_kind f) h (λ t. refl) (λ t done. done) l

  -- The flags of a task that is not there yet are the flags of one that has not started.
  begin-Latched :
      (kind : Kind) (i : ℕ) (message : Bytes) (h : Heap D)
      → Latched h
      → Latched (record h { tasks = h.tasks ++ new_task kind i message ∷ [] })
  unfolding Latched new_task
  begin-Latched kind i message h l j =
      let new = new_task kind i message in
      (
        (l j).0 ∙ sym (flag-snoc has_started h.tasks new j refl),
        rw (flag-snoc has_completed h.tasks new j refl) (l j).1,
      )

  fail-Latched :
      (i : ℕ) (message : Bytes) (error_code : ℕ) (h : Heap D)
      → Latched h
      → Latched (fail ops i message error_code h)
  unfolding fail
  fail-Latched i message error_code h l =
      let msg = own_message failed_word (last_message_of h.tasks i) message in
      let mark = λ (t : Task). record t { completed = true } in
      to_parent-Keeps (update_all ops message) (update_all-Keeps message) i
        (notify_failed (ways h) msg error_code i (modify i mark h))
        (notify_failed-Keeps (ways h) msg error_code i (modify i mark h)
          (modify-Latched i mark h (λ t. refl) (λ t done. refl) l))

  update-Latched : (i value : ℕ) (h : Heap D) → Latched h → OnSome Latched (update ops i value h)
  unfolding update
  update-Latched i value h l =
      let h1 = start_all (last_message_of h.tasks i) i h in
      let l1 = start_all-Keeps (last_message_of h.tasks i) i h l in
      elim (Option-cases (get_elem? h1.tasks i)) [
        | inl missing ↦ rw (missing, update) l1
        | inr (t, there) ↦ elim (Option-cases (spun value t.last_message t.kind)) [
          | inl stop ↦ rw (there, update) (rw stop tt)
          | inr ((kind, kept, message), is_spun) ↦
              rw (there, update)
                (rw is_spun (
                  update_all-Keeps message i (modify i (with_both kind kept) h1)
                    (modify-Latched i (with_both kind kept) h1 (λ t. refl) (λ t done. done) l1)))
        ]
      ]

  make-Latched : (c : Call) (h : Heap D) → Latched h → OnSome Latched (make c h)
  unfolding make complete doing mark_lengthy set_max done begin set_message set_spinner
  make-Latched (Call.complete_call i message) h l =
      let msg = own_message completed_word (last_message_of h.tasks i) message in
      notify_completed-Keeps ops (notify_update ops (ways h) msg) msg
        (notify_update-Keeps ops (ways h) msg) i h l
  make-Latched (Call.fail_call i message error_code) h l = fail-Latched i message error_code h l
  make-Latched (Call.doing_call i message) h l =
      update_all-Keeps message i (start_all message i h) (start_all-Keeps message i h l)
  make-Latched (Call.lengthy_call i is_lengthy message) h l =
      notify_lengthy_task-Keeps (ways h) message is_lengthy i h l
  make-Latched (Call.set_max_call i n trigger_update) h l =
      update_started-Latched i trigger_update (modify i (with_kind (with_max n)) h)
        (with_kind-Latched i (with_max n) h l)
  make-Latched (Call.done_call i message) h l =
      let h' = start_all message i h in
      update_all-Keeps message i (modify i (with_kind (take_slot Slot.finished)) h')
        (with_kind-Latched i (take_slot Slot.finished) h' (start_all-Keeps message i h l))
  make-Latched (Call.begin_call kind i message) h l =
      let h' = start_all message i h in
      let slot = take_slot (Slot.subtask (length h'.tasks)) in
      let grown = record h' { tasks = h'.tasks ++ new_task kind i message ∷ [] } in
      update_all-Keeps message i (modify i (with_kind slot) grown) (
        with_kind-Latched i slot grown
          (begin-Latched kind i message h' (start_all-Keeps message i h l)))
  make-Latched (Call.message_call i message) h l =
      modify-Latched i (with_message message) h (λ t. refl) (λ t done. done) l
  make-Latched (Call.spinner_call i enabled) h l = with_kind-Latched i (with_spinner enabled) h l
  make-Latched (Call.update_call i value) h l = update-Latched i value h l

  make_all-OnSome : (calls : List Call) (h : Heap D) → Latched h → OnSome Latched (make_all calls h)
  unfolding make_all
  make_all-OnSome [] h l = l
  make_all-OnSome (c ∷ calls) h l = elim (Option-cases (make c h)) [
    | inl stop ↦ rw (stop, make_all) tt
    | inr (h', made) ↦
        rw (made, make_all)
          (make_all-OnSome calls h' (subst (OnSome Latched) made (make-Latched c h l)))
  ]

  -- From a heap where that holds, every sequence of calls other than restart leads to a heap where
  -- each task that has started has fired "started" once, and no other task has; and where "completed"
  -- was fired at most once by each task that is marked as completed, and by no other.
  pub make_all-Latched :
      (calls : List Call) (h h' : Heap D) → Latched h → make_all calls h ≡ some h' → Latched h'
  make_all-Latched calls h h' l e = subst (OnSome Latched) e (make_all-OnSome calls h l)
