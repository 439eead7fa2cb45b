-- ===== src/Progress/Notices.antt =====
-- What a task of src/ProgressFeedback.cpp tells its listeners and its parent keeps Latched.
use libcernvm.Prelude.{
  ℕ, zero, suc, ◌≡◌, refl, Bool, inl, inr, length, get_elem?, Bool-cases, Option-cases,
}
use mathlib.Core.Path.{subst}
use libcernvm.Prelude.Keys.{Bytes}
use libcernvm.Progress.Latch.{
  Latched, is_start, is_end, modify-Latched, fire-Latched, start-Latched, finish-Latched,
}
use libcernvm.Progress.{
  Task, Doubles, Event, Heap, fire, modify, with_message, as_started, as_completed, to_parent,
  notify_started, notify_failed, notify_lengthy_task, fire_progress, notify_completed,
  notify_update, is_completed, get_progress,
}

-- What keeps Latched, at every task.
abbrev pub Keeps : {D : Type 0} → (ℕ → Heap D → Heap D) → Type 0
Keeps {D} tell = (i : ℕ) (h : Heap D) → Latched h → Latched (tell i h)

module _ {D : Type 0} where
  pub to_parent-Keeps : (tell : ℕ → Heap D → Heap D) → Keeps tell → Keeps (to_parent tell)
  unfolding to_parent
  to_parent-Keeps tell keeps i h l = elim (Option-cases (get_elem? h.tasks i)) [
    | inl missing ↦ rw (missing, to_parent) l
    | inr (t, there) ↦ elim (Option-cases t.parent) [
      | inl root ↦ rw (there, to_parent) (rw root l)
      | inr (p, parent) ↦ rw (there, to_parent) (rw parent (keeps p h l))
    ]
  ]

  modify-fire :
      (i : ℕ) (f : Task → Task) (e : Event D) (h : Heap D)
      → modify i f (fire e h) ≡ fire e (modify i f h)
  unfolding modify fire
  modify-fire i f e h = elim (Option-cases (get_elem? h.tasks i)) [
    | inl missing ↦ rw (missing, modify, fire) refl
    | inr (t, there) ↦ rw (there, modify, fire) refl
  ]

  with_message-Latched :
      (i : ℕ) (message : Bytes) (h : Heap D)
      → Latched h
      → Latched (modify i (with_message message) h)
  with_message-Latched i message h l =
      modify-Latched i (with_message message) h (λ t. refl) (λ t done. done) l

  progress-Latched :
      (i : ℕ) (message : Bytes) (d : D) (h : Heap D)
      → Latched h
      → Latched (fire (Event.progress_event i message d) h)
  unfolding is_start is_end
  progress-Latched i message d h l =
      fire-Latched (Event.progress_event i message d) h (λ j. (refl, refl)) l

  pub notify_started-Keeps :
      (fuel : ℕ) (message : Bytes) → Keeps {D = D} (notify_started fuel message)
  unfolding notify_started
  notify_started-Keeps zero message i h l = l
  notify_started-Keeps (suc fuel) message i h l = elim (Option-cases (get_elem? h.tasks i)) [
    | inl missing ↦ rw (missing, notify_started) l
    | inr (t, there) ↦ elim (Bool-cases t.started) [
      | inl started ↦ rw (there, notify_started) (rw started l)
      | inr new ↦
          rw (there, notify_started)
            (rw new (
              to_parent-Keeps (notify_started fuel message) (notify_started-Keeps fuel message) i
                (fire (Event.started_event i message) (modify i (as_started message) h))
                (start-Latched i message t h there new l)))
    ]
  ]

  pub notify_failed-Keeps :
      (fuel : ℕ) (message : Bytes) (error_code : ℕ)
      → Keeps {D = D} (notify_failed fuel message error_code)
  unfolding notify_failed is_start is_end
  notify_failed-Keeps zero message error_code i h l = l
  notify_failed-Keeps (suc fuel) message error_code i h l =
      let h' = modify i (with_message message) h in
      let e = Event.failed_event i message error_code in
      to_parent-Keeps (notify_failed fuel message error_code)
        (notify_failed-Keeps fuel message error_code) i (fire e h')
        (fire-Latched e h' (λ j. (refl, refl)) (with_message-Latched i message h l))

  pub notify_lengthy_task-Keeps :
      (fuel : ℕ) (message : Bytes) (is_lengthy : Bool)
      → Keeps {D = D} (notify_lengthy_task fuel message is_lengthy)
  unfolding notify_lengthy_task is_start is_end
  notify_lengthy_task-Keeps zero message is_lengthy i h l = l
  notify_lengthy_task-Keeps (suc fuel) message is_lengthy i h l =
      let e = Event.lengthy_event i message is_lengthy in
      to_parent-Keeps (notify_lengthy_task fuel message is_lengthy)
        (notify_lengthy_task-Keeps fuel message is_lengthy) i (fire e h)
        (fire-Latched e h (λ j. (refl, refl)) l)

module _ {D : Type 0} (ops : Doubles D) where
  pub notify_completed-Keeps :
      (tell : ℕ → Heap D → Heap D) (message : Bytes)
      → Keeps tell
      → Keeps (notify_completed ops tell message)
  unfolding notify_completed fire
  notify_completed-Keeps tell message keeps i h l =
      let p = Event.progress_event i message ops.one in
      let c = Event.completed_event i message in
      elim (Option-cases (get_elem? h.tasks i)) [
        | inl missing ↦ rw (missing, notify_completed) l
        | inr (t, there) ↦ elim (Bool-cases t.completed) [
          | inl completed ↦ rw (there, notify_completed) (rw completed l)
          | inr new ↦
              let later =
                finish-Latched i message t (fire p h) there new
                  (progress-Latched i message ops.one h l) in
              let told : Latched (fire c (fire p (modify i (as_completed message) h))) =
                subst (λ (k : Heap D). Latched (fire c k))
                  (modify-fire i (as_completed message) p h) later in
              rw (there, notify_completed) (rw new (to_parent-Keeps tell keeps i _ told))
        ]
      ]

  pub notify_update-Keeps :
      (fuel : ℕ) (message : Bytes) → Keeps {D = D} (notify_update ops fuel message)
  unfolding notify_update fire_progress
  notify_update-Keeps zero message i h l = l
  notify_update-Keeps (suc fuel) message i h l =
      let h' = modify i (with_message message) h in
      let l' = with_message-Latched i message h l in
      let tell = notify_update ops fuel message in
      let keeps = notify_update-Keeps fuel message in
      elim (Bool-cases (is_completed (length h'.tasks) h'.tasks i)) [
        | inl completed ↦
            rw (completed, notify_update) (notify_completed-Keeps tell message keeps i h' l')
        | inr on ↦
            rw (on, notify_update)
              (to_parent-Keeps tell keeps i (fire_progress ops message i h')
                (progress-Latched i message (get_progress ops (length h'.tasks) h'.tasks i) h' l'))
      ]
