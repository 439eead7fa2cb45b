-- ===== src/Progress/Single.antt =====
-- A FiniteTask of src/ProgressFeedback.cpp alone in its heap, through one call of done.
use libcernvm.Prelude.{
  ℕ, ◌+◌, ◌≡◌, refl, ap, ◌∙◌, Bool, true, false, List, [], ◌∷◌, ◌++◌, none, inl, inr, arith,
  if◌then◌else◌, ltb, length, set, Bool-cases,
}
use libcernvm.Prelude.Keys.{Bytes}
use libcernvm.Progress.{
  Slot, Kind, Doubles, Event, Heap, fire, modify, to_parent, notify_started, fire_progress,
  notify_completed, notify_update, is_completed, task_completed, slots_completed, get_progress,
}
use libcernvm.Progress.Tasks.{done, take_slot, with_kind, update_all, start_all, ways}
use libcernvm.Progress.Latch.{how_many, is_end, how_many-snoc}

-- What `done` does to the slots.
unfoldable pub after_done : List Slot → ℕ → List Slot × ℕ
after_done slots idx =
    if ltb idx (length slots) then (set slots idx Slot.finished, idx + 1) else (slots, idx)

module _ {D : Type 0} where
  abbrev pub single : Kind → Bytes → Bool → Bool → List (Event D) → Heap D
  single kind message started completed events = record {
    tasks =
        (record {
          kind = kind;
          parent = none;
          last_message = message;
          started = started;
          completed = completed;
        })
        ∷ [];
    events = events;
  }

  -- A FiniteTask that was made just now.
  abbrev pub new_root : Heap D
  new_root = single (Kind.finite [] 0) [] false false []

  start_single :
      (kind : Kind) (old message : Bytes) (started : Bool) (events : List (Event D))
      → (events' : List (Event D)) × (new : Bytes) × (start_all message 0
            (single kind old started false events)
          ≡ single kind new true false events')
        × (how_many (is_end 0) events' ≡ how_many (is_end 0) events)
  unfolding start_all ways notify_started modify fire to_parent is_end
  start_single kind old message true events = (events, old, refl, refl)
  start_single kind old message false events = (
    events ++ Event.started_event 0 message ∷ [],
    message,
    refl,
    how_many-snoc (is_end 0) events (Event.started_event 0 message) ∙ omega arith,
  )

module _ {D : Type 0} (ops : Doubles D) where
  update_single :
      (slots : List Slot) (idx : ℕ) (old message : Bytes) (c : Bool) (events : List (Event D))
      → slots_completed (λ _. false) slots ≡ c
      → (events' : List (Event D)) × (update_all ops message 0
            (single (Kind.finite slots idx) old true false events)
          ≡ single (Kind.finite slots idx) message true c events')
        × (how_many (is_end 0) events' ≡ how_many (is_end 0) events + (if c then 1 else 0))
  unfolding update_all ways notify_update modify fire to_parent notify_completed fire_progress
      is_completed task_completed get_progress is_end
  update_single slots idx old message true events all = (
    (events ++ Event.progress_event 0 message ops.one ∷ []) ++ Event.completed_event 0 message ∷ [],
    rw all refl,
    how_many-snoc (is_end 0) (events ++ Event.progress_event 0 message ops.one ∷ [])
          (Event.completed_event 0 message)
        ∙ ground (arith, how_many-snoc (is_end 0) events (Event.progress_event 0 message ops.one)),
  )
  update_single slots idx old message false events all =
      let d =
        get_progress ops 1 (single (Kind.finite slots idx) message true false events).tasks 0 in
      (
        events ++ Event.progress_event 0 message d ∷ [],
        rw all refl,
        how_many-snoc (is_end 0) events (Event.progress_event 0 message d) ∙ omega arith,
      )

  pub update_completed :
      (slots : List Slot) (idx : ℕ) (old message : Bytes) (events : List (Event D))
      → update_all ops message 0 (single (Kind.finite slots idx) old true true events)
        ≡ single (Kind.finite slots idx) message true true events
  unfolding update_all ways notify_update modify fire to_parent notify_completed fire_progress
      is_completed task_completed get_progress
  update_completed slots idx old message events = refl

  slot_single :
      (slots : List Slot) (idx : ℕ) (message : Bytes) (events : List (Event D))
      → modify 0
          (with_kind (take_slot Slot.finished))
          (single (Kind.finite slots idx) message true false events)
        ≡ single
            (Kind.finite (after_done slots idx).0 (after_done slots idx).1)
            message
            true
            false
            events
  unfolding modify take_slot after_done
  slot_single slots idx message events = elim (Bool-cases (ltb idx (length slots))) [
    | inl within ↦ rw (within, take_slot) refl
    | inr outside ↦ rw (outside, take_slot) refl
  ]

  pub done-single :
      (slots : List Slot) (idx : ℕ) (old message : Bytes) (started c : Bool)
      (events : List (Event D))
      → slots_completed (λ _. false) (after_done slots idx).0 ≡ c
      → (events' : List (Event D)) × (done ops 0 message
            (single (Kind.finite slots idx) old started false events)
          ≡ single
              (Kind.finite (after_done slots idx).0 (after_done slots idx).1)
              message
              true
              c
              events')
        × (how_many (is_end 0) events' ≡ how_many (is_end 0) events + (if c then 1 else 0))
  unfolding done
  done-single slots idx old message started c events all =
      let (events1, new, begun, same) =
        start_single (Kind.finite slots idx) old message started events in
      let (events2, told, count) =
        update_single (after_done slots idx).0 (after_done slots idx).1 new message c events1 all in
      (
        events2,
        ap
              (λ (h : Heap D).
                update_all ops message 0 (modify 0 (with_kind (take_slot Slot.finished)) h))
              begun
            ∙ ap (update_all ops message 0) (slot_single slots idx new events1)
            ∙ told,
        count ∙ ap (λ n. n + (if c then 1 else 0)) same,
      )
