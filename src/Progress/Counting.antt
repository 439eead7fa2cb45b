-- ===== src/Progress/Counting.antt =====
-- A FiniteTask of src/ProgressFeedback.cpp that has no parent and no sub-tasks, through the calls of done.
use libcernvm.Prelude.{
  ℕ, zero, suc, ◌+◌, ◌-◌, ◌<◌, ◌≡◌, refl, sym, ap, ◌∙◌, Bool, true, false, List, [], ◌∷◌, ◌++◌, inl,
  inr, arith, if◌then◌else◌, ltb, leb, ◌==◌, length, set, replicate, Bool-cases,
}
use mathlib.Core.Path.{subst}
use libcernvm.Prelude.Keys.{Bytes}
use libcernvm.Progress.{Slot, Kind, Doubles, Event, Heap, modify, notify_started, slots_completed}
use libcernvm.Progress.Tasks.{
  set_max, resized, update_started, with_max, done, take_slot, start_all, ways,
}
use libcernvm.Progress.Flags.{flag, has_completed}
use libcernvm.Progress.Latch.{how_many, is_end}
use libcernvm.Progress.Single.{after_done, single, new_root, update_completed, done-single}

-- Slots of which the first are finished.
abbrev counted : ℕ → ℕ → List Slot
counted k m = replicate k Slot.finished ++ replicate m Slot.pending

slots_completed-counted :
    (child : ℕ → Bool) (k m : ℕ) → slots_completed child (counted k m) ≡ (m == 0)
unfolding slots_completed
slots_completed-counted child zero zero = refl
slots_completed-counted child zero (suc m) = ground arith
slots_completed-counted child (suc k) m = slots_completed-counted child k m

length-counted : (k m : ℕ) → length (counted k m) ≡ k + m
length-counted zero zero = refl
length-counted zero (suc m) = omega (arith, length-counted zero m)
length-counted (suc k) m = omega (arith, length-counted k m)

set-counted : (k m : ℕ) → set (counted k (suc m)) k Slot.finished ≡ counted (suc k) m
set-counted zero m = refl
set-counted (suc k) m = ap (λ l. Slot.finished ∷ l) (set-counted k m)

after_done-counted : (k m : ℕ) → after_done (counted k (suc m)) k ≡ (counted (suc k) m, suc k)
unfolding after_done
after_done-counted k m =
    let within : ltb k (length (counted k (suc m))) ≡ true =
      ground (arith, length-counted k (suc m)) in
    let next : k + 1 ≡ suc k = omega arith in rw (within, set-counted k m, next) refl

module _ {D : Type 0} (ops : Doubles D) where
  -- Several calls of done on a task.
  unfoldable pub dones : ℕ → ℕ → Bytes → Heap D → Heap D
  dones zero i message h = h
  dones (suc n) i message h = dones n i message (done ops i message h)

  abbrev Ended : Heap D → Bool → ℕ → Type 0
  Ended h c n =
      (slots : List Slot) × (idx : ℕ) × (message : Bytes) × (started : Bool) × (events : List
        (Event D))
      × (h ≡ single (Kind.finite slots idx) message started c events)
      × (how_many (is_end 0) events ≡ n)

  done_completed :
      (slots : List Slot) (idx : ℕ) (old message : Bytes) (events : List (Event D))
      → done ops 0 message (single (Kind.finite slots idx) old true true events)
        ≡ single
            (Kind.finite (after_done slots idx).0 (after_done slots idx).1)
            message
            true
            true
            events
  unfolding done start_all ways notify_started modify take_slot after_done
  done_completed slots idx old message events = elim (Bool-cases (ltb idx (length slots))) [
    | inl within ↦
        rw (within, take_slot)
          (update_completed ops (set slots idx Slot.finished) (idx + 1) old message events)
    | inr outside ↦ rw (outside, take_slot) (update_completed ops slots idx old message events)
  ]

  dones_completed :
      (n : ℕ) (slots : List Slot) (idx : ℕ) (old message : Bytes) (events : List (Event D))
      → Ended
          (dones n 0 message (single (Kind.finite slots idx) old true true events))
          true
          (how_many (is_end 0) events)
  unfolding dones
  dones_completed zero slots idx old message events = (slots, idx, old, true, events, refl, refl)
  dones_completed (suc n) slots idx old message events =
      subst (λ (h : Heap D). Ended (dones n 0 message h) true (how_many (is_end 0) events))
        (sym (done_completed slots idx old message events))
        (dones_completed n (after_done slots idx).0 (after_done slots idx).1 message message events)

  done-counted :
      (k m : ℕ) (old message : Bytes) (started : Bool) (events : List (Event D))
      → (events' : List (Event D)) × (done ops 0 message
            (single (Kind.finite (counted k (suc m)) k) old started false events)
          ≡ single (Kind.finite (counted (suc k) m) (suc k)) message true (m == 0) events')
        × (how_many (is_end 0) events' ≡ how_many (is_end 0) events + (if m == 0 then 1 else 0))
  done-counted k m old message started events =
      let next = after_done-counted k m in
      let (events1, step, count) =
        done-single ops (counted k (suc m)) k old message started (m == 0) events
          (rw next (slots_completed-counted (λ _. false) (suc k) m)) in
      (
        events1,
        step
            ∙ ap (λ (r : List Slot × ℕ). single (Kind.finite r.0 r.1) message true (m == 0) events1)
                next,
        count,
      )

  dones-counted :
      (n k m : ℕ) (old message : Bytes) (started : Bool) (events : List (Event D))
      → Ended
          (dones n 0 message (single (Kind.finite (counted k (suc m)) k) old started false events))
          (leb (suc m) n)
          (how_many (is_end 0) events + (if leb (suc m) n then 1 else 0))
  unfolding dones
  dones-counted zero k m old message started events =
      (counted k (suc m), k, old, started, events, ground arith, ground arith)
  dones-counted (suc n) k zero old message started events =
      let (events1, step, count) = done-counted k zero old message started events in
      let all : leb 1 (suc n) ≡ true = ground arith in
      rw (all, step)
        (subst
          (Ended
            (dones n 0 message
              (single (Kind.finite (counted (suc k) zero) (suc k)) message true true events1))
            true)
          (count ∙ ground arith)
          (dones_completed n (counted (suc k) zero) (suc k) message message events1))
  dones-counted (suc n) k (suc m) old message started events =
      let (events1, step, count) = done-counted k (suc m) old message started events in
      let more : (suc m == 0) ≡ false = ground arith in
      let same : leb (suc (suc m)) (suc n) ≡ leb (suc m) n = ground arith in
      let kept : how_many (is_end 0) events1 ≡ how_many (is_end 0) events =
        count ∙ rw more (omega arith) in
      rw (same, step, more, ← kept) (dones-counted n (suc k) m message message true events1)

  max_set :
      (n : ℕ) (trigger_update : Bool)
      → set_max ops 0 n trigger_update new_root
        ≡ single (Kind.finite (counted 0 n) 0) [] false false []
  unfolding set_max modify update_started with_max resized
  max_set n trigger_update =
      let never : ltb n 0 ≡ false = ground arith in
      let all : n - 0 ≡ n = omega arith in rw (never, all) refl

  -- A FiniteTask that has no parent and is given no sub-tasks: with a maximum of n tasks, n not zero, it
  -- is marked as completed after k calls of done just when k is n or more, and has then told so once,
  -- however many calls follow, and before that never.
  pub done-completes :
      (n k : ℕ) (message : Bytes) (trigger_update : Bool)
      → 0 < n
      → (flag has_completed (dones k 0 message (set_max ops 0 n trigger_update new_root)).tasks 0
          ≡ (if leb n k then 1 else 0))
        × (how_many (is_end 0) (dones k 0 message (set_max ops 0 n trigger_update new_root)).events
            ≡ (if leb n k then 1 else 0))
  unfolding how_many
  done-completes zero k message trigger_update h = absurd (omega arith)
  done-completes (suc m) k message trigger_update h =
      let (slots, idx, last, started, events, ended, count) =
        dones-counted k zero m [] message false [] in
      let state = ap (dones k 0 message) (max_set (suc m) trigger_update) ∙ ended in
      (
        ap (λ (h' : Heap D). flag has_completed h'.tasks 0) state,
        ap (λ (h' : Heap D). how_many (is_end 0) h'.events) state ∙ count ∙ no_events (suc m) k,
      )
    where
      no_events :
          (n k : ℕ)
          → how_many {D = D} (is_end 0) [] + (if leb n k then 1 else 0) ≡ (if leb n k then 1 else 0)
      no_events n k = omega arith
