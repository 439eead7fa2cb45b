-- ===== src/Progress/Fuel.antt =====
-- The fuel with which a task of src/ProgressFeedback.cpp tells its parents is enough.
use libcernvm.Prelude.{
  ℕ, zero, suc, ◌<◌, ◌≡◌, refl, ap, none, some, inl, inr, arith, if◌then◌else◌, length, get_elem?,
  Bool-cases, Option-cases,
}
use libcernvm.Prelude.Keys.{Bytes}
use libcernvm.Progress.{
  Task, Doubles, Event, Heap, fire, modify, with_message, as_started, as_completed, to_parent,
  notify_started, fire_progress, notify_completed, notify_update, is_completed, get_progress,
}
use libcernvm.Progress.Flags.{get_elem?-modify}

-- A parent stands before its children, as begin puts them.
unfoldable ParentsFirst : {D : Type 0} → Heap D → Type 0
ParentsFirst h = (i p : ℕ) (t : Task) → get_elem? h.tasks i ≡ some t → t.parent ≡ some p → p < i

module _ {D : Type 0} where
  fire-ParentsFirst : (e : Event D) (h : Heap D) → ParentsFirst h → ParentsFirst (fire e h)
  unfolding ParentsFirst fire
  fire-ParentsFirst e h first = first

  modify-ParentsFirst :
      (i : ℕ) (f : Task → Task) (h : Heap D)
      → ((t : Task) → (f t).parent ≡ t.parent)
      → ParentsFirst h
      → ParentsFirst (modify i f h)
  unfolding ParentsFirst
  modify-ParentsFirst i f h same first j p t there parent =
      elim (Option-cases (get_elem? h.tasks j)) [
        | inl missing ↦ absurd (ground (arith, get_elem?-modify i j f h, there, missing))
        | inr (t', there') ↦
            first j p t' there'
              (ground (arith, get_elem?-modify i j f h, there, there', same t', parent))
      ]

  -- Two ways to tell a parent that agree below a task.
  to_parent-agree :
      (tell tell' : ℕ → Heap D → Heap D) (i : ℕ) (h : Heap D)
      → ParentsFirst h
      → ((p : ℕ) → p < i → tell p h ≡ tell' p h)
      → to_parent tell i h ≡ to_parent tell' i h
  unfolding to_parent ParentsFirst
  to_parent-agree tell tell' i h first agree = elim (Option-cases (get_elem? h.tasks i)) [
    | inl missing ↦ rw (missing, to_parent) refl
    | inr (t, there) ↦ elim (Option-cases t.parent) [
      | inl root ↦ rw (there, to_parent) (rw root refl)
      | inr (p, parent) ↦ rw (there, to_parent) (rw parent (agree p (first i p t there parent)))
    ]
  ]

  -- When parents stand before their children, _notifyStarted of a task does the same with every fuel
  -- above its place.
  notify_started-enough :
      (fuel fuel' : ℕ) (message : Bytes) (i : ℕ) (h : Heap D)
      → ParentsFirst h
      → i < fuel
      → i < fuel'
      → notify_started fuel message i h ≡ notify_started fuel' message i h
  unfolding notify_started
  notify_started-enough zero fuel' message i h first a b = absurd (omega arith)
  notify_started-enough (suc fuel) zero message i h first a b = absurd (omega arith)
  notify_started-enough (suc fuel) (suc fuel') message i h first a b =
      let h' = fire (Event.started_event i message) (modify i (as_started message) h) in
      let first' =
        fire-ParentsFirst (Event.started_event i message) (modify i (as_started message) h)
          (modify-ParentsFirst i (as_started message) h (λ t. refl) first) in
      let above =
        to_parent-agree (notify_started fuel message) (notify_started fuel' message) i h' first'
          (λ p below.
            notify_started-enough fuel fuel' message p h' first' (omega (arith, below, a))
              (omega (arith, below, b))) in
      ap
        (λ (told : Heap D). elim (get_elem? h.tasks i) [
          | none ↦ h
          | some t ↦ if t.started then h else told
        ])
        above

  notify_completed-agree :
      (ops : Doubles D) (tell tell' : ℕ → Heap D → Heap D) (message : Bytes) (i : ℕ) (h : Heap D)
      → ParentsFirst h
      → ((p : ℕ) (k : Heap D) → ParentsFirst k → p < i → tell p k ≡ tell' p k)
      → notify_completed ops tell message i h ≡ notify_completed ops tell' message i h
  unfolding notify_completed
  notify_completed-agree ops tell tell' message i h first agree =
      let p = Event.progress_event i message ops.one in
      let c = Event.completed_event i message in
      let marked = modify i (as_completed message) h in
      let first' = fire-ParentsFirst c (fire p marked) (
        fire-ParentsFirst p marked
          (modify-ParentsFirst i (as_completed message) h (λ t. refl) first)) in
      ap
        (λ (told : Heap D). elim (get_elem? h.tasks i) [
          | none ↦ h
          | some t ↦ if t.completed then h else told
        ])
        (to_parent-agree tell tell' i (fire c (fire p marked)) first'
          (λ q below. agree q (fire c (fire p marked)) first' below))

  -- When parents stand before their children, _notifyUpdate of a task does the same with every fuel
  -- above its place: the number of tasks is enough.
  notify_update-enough :
      (ops : Doubles D) (fuel fuel' : ℕ) (message : Bytes) (i : ℕ) (h : Heap D)
      → ParentsFirst h
      → i < fuel
      → i < fuel'
      → notify_update ops fuel message i h ≡ notify_update ops fuel' message i h
  unfolding notify_update fire_progress
  notify_update-enough ops zero fuel' message i h first a b = absurd (omega arith)
  notify_update-enough ops (suc fuel) zero message i h first a b = absurd (omega arith)
  notify_update-enough ops (suc fuel) (suc fuel') message i h first a b =
      let h' = modify i (with_message message) h in
      let first' = modify-ParentsFirst i (with_message message) h (λ t. refl) first in
      let told = fire_progress ops message i h' in
      let told_first =
        fire-ParentsFirst
          (Event.progress_event i message (get_progress ops (length h'.tasks) h'.tasks i)) h'
          first' in
      let agree = λ (p : ℕ) (k : Heap D) (k_first : ParentsFirst k) (below : p < i).
        notify_update-enough ops fuel fuel' message p k k_first (omega (arith, below, a))
          (omega (arith, below, b)) in
      elim (Bool-cases (is_completed (length h'.tasks) h'.tasks i)) [
        | inl completed ↦ rw completed (
            notify_completed-agree ops (notify_update ops fuel message)
              (notify_update ops fuel' message) message i h' first' agree)
        | inr on ↦ rw on (
            to_parent-agree (notify_update ops fuel message) (notify_update ops fuel' message) i
              told told_first (λ p below. agree p told told_first below))
      ]
