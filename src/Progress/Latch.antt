-- ===== src/Progress/Latch.antt =====
-- The tasks of src/ProgressFeedback.cpp tell that they start and that they are completed once.
use libcernvm.Prelude.{
  ℕ, suc, ◌+◌, ◌≤◌, ◌≡◌, refl, sym, ap, ◌∙◌, Bool, true, false, List, [], ◌∷◌, ◌++◌, some, arith,
  if◌then◌else◌, ◌==◌, get_elem?,
}
use libcernvm.Prelude.Keys.{Bytes}
use libcernvm.Progress.Flags.{
  flag, has_started, has_completed, events-modify, flag-modify, flag-modify_grows, flag-modify_set,
}
use libcernvm.Progress.{Task, Event, Heap, fire, modify, as_started, as_completed}

unfoldable pub is_start : {D : Type 0} → ℕ → Event D → Bool
is_start i (Event.started_event j _) = i == j
is_start i (Event.completed_event _ _) = false
is_start i (Event.failed_event _ _ _) = false
is_start i (Event.progress_event _ _ _) = false
is_start i (Event.lengthy_event _ _ _) = false

unfoldable pub is_end : {D : Type 0} → ℕ → Event D → Bool
is_end i (Event.started_event _ _) = false
is_end i (Event.completed_event j _) = i == j
is_end i (Event.failed_event _ _ _) = false
is_end i (Event.progress_event _ _ _) = false
is_end i (Event.lengthy_event _ _ _) = false

-- How many events pass a test.
unfoldable pub how_many : {D : Type 0} → (Event D → Bool) → List (Event D) → ℕ
how_many test [] = 0
how_many test (e ∷ events) = let rest = how_many test events in if test e then suc rest else rest

-- "started" was fired once for every task that has started, and for no other; "completed" at most once
-- for every task that is marked as completed, and for no other.
unfoldable pub Latched : {D : Type 0} → Heap D → Type 0
Latched h =
    (i : ℕ)
    → (how_many (is_start i) h.events ≡ flag has_started h.tasks i)
      × (how_many (is_end i) h.events ≤ flag has_completed h.tasks i)

module _ {D : Type 0} where
  pub how_many-snoc :
      (test : Event D → Bool) (events : List (Event D)) (e : Event D)
      → how_many test (events ++ e ∷ []) ≡ how_many test events + (if test e then 1 else 0)
  unfolding how_many
  how_many-snoc test [] e = ground arith
  how_many-snoc test (x ∷ events) e = ground (arith, how_many-snoc test events e)

  -- An assignment that keeps "started", and does not clear "completed".
  pub modify-Latched :
      (i : ℕ) (f : Task → Task) (h : Heap D)
      → ((t : Task) → (f t).started ≡ t.started)
      → ((t : Task) → t.completed ≡ true → (f t).completed ≡ true)
      → Latched h
      → Latched (modify i f h)
  unfolding Latched
  modify-Latched i f h keeps grows l j =
      let same = events-modify i f h in
      (
        ap (how_many (is_start j)) same ∙ (l j).0 ∙ sym (flag-modify has_started i j f h keeps),
        rw same (omega (arith, (l j).1, flag-modify_grows has_completed i j f h grows)),
      )

  -- An event that is neither "started" nor "completed".
  pub fire-Latched :
      (e : Event D) (h : Heap D)
      → ((i : ℕ) → (is_start i e ≡ false) × (is_end i e ≡ false))
      → Latched h
      → Latched (fire e h)
  unfolding Latched fire
  fire-Latched e h other l j = (
    how_many-snoc (is_start j) h.events e ∙ ground (arith, other j, l j),
    rw (how_many-snoc (is_end j) h.events e) (ground (arith, other j, l j)),
  )

  pub start-Latched :
      (i : ℕ) (message : Bytes) (t : Task) (h : Heap D)
      → get_elem? h.tasks i ≡ some t
      → t.started ≡ false
      → Latched h
      → Latched (fire (Event.started_event i message) (modify i (as_started message) h))
  unfolding Latched fire is_start is_end
  start-Latched i message t h there new l j =
      let same = events-modify i (as_started message) h in
      let e = Event.started_event i message in
      (
        how_many-snoc (is_start j) (modify i (as_started message) h).events e
            ∙ ground (
              arith,
              same,
              l j,
              flag-modify_set has_started i j (as_started message) t h there new refl,
            ),
        rw (how_many-snoc (is_end j) (modify i (as_started message) h).events e, same)
            (ground (arith, l j, flag-modify has_completed i j (as_started message) h (λ t. refl))),
      )

  pub finish-Latched :
      (i : ℕ) (message : Bytes) (t : Task) (h : Heap D)
      → get_elem? h.tasks i ≡ some t
      → t.completed ≡ false
      → Latched h
      → Latched (fire (Event.completed_event i message) (modify i (as_completed message) h))
  unfolding Latched fire is_start is_end
  finish-Latched i message t h there new l j =
      let same = events-modify i (as_completed message) h in
      let e = Event.completed_event i message in
      (
        how_many-snoc (is_start j) (modify i (as_completed message) h).events e
            ∙ ground (
              arith,
              same,
              l j,
              flag-modify has_started i j (as_completed message) h (λ t. refl),
            ),
        rw (how_many-snoc (is_end j) (modify i (as_completed message) h).events e, same)
            (ground (
              arith,
              l j,
              flag-modify_set has_completed i j (as_completed message) t h there new refl,
            )),
      )
