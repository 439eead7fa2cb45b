-- ===== src/Progress/Tests.antt =====
-- Runs of the tasks of src/ProgressFeedback.cpp, with parts of a thousand for the doubles.
use libcernvm.Prelude.Texts.{codes}
use libcernvm.Prelude.{
  ℕ, zero, suc, ◌+◌, ◌*◌, ◌/◌, ◌≡◌, refl, true, false, List, [], ◌∷◌, none, some, arith,
}
use libcernvm.Prelude.Keys.{Bytes}
use libcernvm.Progress.{
  Slot, Kind, Task, Doubles, Event, Heap, fire, modify, to_parent, notify_started, notify_failed,
  fire_progress, notify_completed, notify_update, is_completed, task_completed, slots_completed,
  get_progress, task_progress, slots_progress,
}
use libcernvm.Progress.Tasks.{
  set_max, done, begin, fail, update_all, start_all, update_started, with_max, resized, take_slot,
  new_task, own_message, last_message_of, ways, restart,
}
use libcernvm.Progress.Flags.{flag, has_completed}
use libcernvm.Progress.Latch.{Latched, how_many, is_end}
use libcernvm.Progress.Single.{new_root}
use libcernvm.Progress.Counting.{dones, done-completes}
use libcernvm.Progress.Calls.{Call, make, make_all, make_all-Latched}
use libcernvm.Progress.Unheard.{holds, is_completed-unheard}

abbrev mille : Doubles ℕ
mille = record {
  one = 1000;
  zero_value = 0;
  of_size = λ n. n * 1000;
  add = λ a b. a + b;
  mul = λ a b. a * b / 1000;
  div = λ a b. a * 1000 / b;
}

abbrev root : Heap ℕ
root = new_root

abbrev hello : Bytes
hello = codes "hi"

done-completes_example :
    (flag has_completed (dones mille 5 0 hello (set_max mille 0 3 true root)).tasks 0 ≡ 1)
    × (how_many (is_end 0) (dones mille 5 0 hello (set_max mille 0 3 true root)).events ≡ 1)
done-completes_example = done-completes mille 3 5 hello true (omega arith)

-- A task of two steps: the first is done, and the second is a sub-task, which fails.
abbrev calls : List Call
calls =
    Call.set_max_call 0 2 true
    ∷ Call.done_call 0 hello
    ∷ Call.begin_call Kind.boolean 0 hello
    ∷ Call.fail_call 1 hello 7
    ∷ Call.complete_call 0 hello
    ∷ []

abbrev after : Heap ℕ
after = record {
  tasks =
      (record {
        kind = Kind.finite (Slot.finished ∷ Slot.subtask 1 ∷ []) 2;
        parent = none;
        last_message = hello;
        started = true;
        completed = true;
      })
      ∷ (record {
        kind = Kind.boolean;
        parent = some 0;
        last_message = hello;
        started = false;
        completed = true;
      })
      ∷ [];
  events =
      Event.started_event 0 hello
      ∷ Event.progress_event 0 hello 500
      ∷ Event.progress_event 0 hello 500
      ∷ Event.failed_event 1 hello 7
      ∷ Event.failed_event 0 hello 7
      ∷ Event.progress_event 0 hello 1000
      ∷ Event.completed_event 0 hello
      ∷ [];
}

-- The failure of the last step makes the task tell that it is completed.
calls_lem : make_all mille calls root ≡ some after
unfolding make_all make set_max done begin fail update_all start_all update_started with_max resized
    take_slot new_task own_message last_message_of ways modify fire to_parent notify_started
    notify_failed fire_progress notify_completed notify_update is_completed task_completed
    slots_completed get_progress task_progress slots_progress libcernvm.Progress.Tasks.complete
calls_lem = refl

root-Latched : Latched root
unfolding Latched how_many
root-Latched zero = (refl, omega arith)
root-Latched (suc i) = (refl, omega arith)

make_all-Latched_example : Latched after
make_all-Latched_example = make_all-Latched mille calls root after root-Latched calls_lem

-- A sub-task that counts to ten is completed at once.
abbrev tasks : List Task
tasks =
    (record {
      kind = Kind.finite (Slot.subtask 1 ∷ []) 1;
      parent = none;
      last_message = hello;
      started = true;
      completed = false;
    })
    ∷ (record {
      kind = Kind.variable 10 0 true 0;
      parent = some 0;
      last_message = hello;
      started = false;
      completed = true;
    })
    ∷ []

one_held : holds 1 (Slot.subtask 1 ∷ []) ≡ true
unfolding holds
one_held = refl

is_completed-unheard_example : is_completed 2 tasks 0 ≡ false
is_completed-unheard_example =
    is_completed-unheard 1
      (record {
        kind = Kind.variable 10 0 true 0;
        parent = some 0;
        last_message = hello;
        started = false;
        completed = true;
      })
      2 0 1 tasks
      (record {
        kind = Kind.finite (Slot.subtask 1 ∷ []) 1;
        parent = none;
        last_message = hello;
        started = true;
        completed = false;
      })
      (Slot.subtask 1 ∷ []) refl refl refl refl refl refl one_held
