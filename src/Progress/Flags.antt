-- ===== src/Progress/Flags.antt =====
-- The flags of the tasks of src/ProgressFeedback.cpp behind an assignment.
use libcernvm.Prelude.{
  ℕ, zero, suc, ◌+◌, ◌≤◌, ◌≡◌, ◌≢◌, refl, sym, ap, ◌∙◌, Bool, true, false, List, [], ◌∷◌, ◌++◌,
  Option, none, some, inl, inr, arith, if◌then◌else◌, ◌==◌, ==_iff, get_elem?, get_elem?-set_self,
  get_elem?-set_ne, get_elem?-lt, Bool-cases, Option-cases,
}
use mathlib.Core.Option
use libcernvm.Progress.{Task, Heap, modify}

abbrev pub flag_of : (Task → Bool) → Option Task → ℕ
flag_of test none = 0
flag_of test (some t) = if test t then 1 else 0

abbrev pub flag : (Task → Bool) → List Task → ℕ → ℕ
flag test tasks i = flag_of test (get_elem? tasks i)

abbrev pub has_started : Task → Bool
has_started t = t.started

abbrev pub has_completed : Task → Bool
has_completed t = t.completed

-- A task that is added, and fails the test.
pub flag-snoc :
    (test : Task → Bool) (tasks : List Task) (t : Task) (i : ℕ)
    → test t ≡ false
    → flag test (tasks ++ t ∷ []) i ≡ flag test tasks i
flag-snoc test [] t zero h = ground (arith, h)
flag-snoc test [] t (suc i) h = refl
flag-snoc test (x ∷ tasks) t zero h = refl
flag-snoc test (x ∷ tasks) t (suc i) h = flag-snoc test tasks t i h

module _ {D : Type 0} where
  pub modify_missing :
      (i : ℕ) (f : Task → Task) (h : Heap D) → get_elem? h.tasks i ≡ none → modify i f h ≡ h
  unfolding modify
  modify_missing i f h e = rw (e, modify) refl

  -- The task at a place behind an assignment.
  pub get_elem?-modify_self :
      (i : ℕ) (f : Task → Task) (t : Task) (h : Heap D)
      → get_elem? h.tasks i ≡ some t
      → get_elem? (modify i f h).tasks i ≡ some (f t)
  unfolding modify
  get_elem?-modify_self i f t h e =
      rw (e, modify) (get_elem?-set_self h.tasks i (f t) (get_elem?-lt h.tasks i e))

  pub get_elem?-modify_ne :
      (i j : ℕ) (f : Task → Task) (h : Heap D)
      → i ≢ j
      → get_elem? (modify i f h).tasks j ≡ get_elem? h.tasks j
  unfolding modify
  get_elem?-modify_ne i j f h ne = elim (Option-cases (get_elem? h.tasks i)) [
    | inl e ↦ rw (e, modify) refl
    | inr (t, e) ↦ rw (e, modify) (get_elem?-set_ne h.tasks (f t) ne)
  ]

  pub events-modify : (i : ℕ) (f : Task → Task) (h : Heap D) → (modify i f h).events ≡ h.events
  unfolding modify
  events-modify i f h = elim (Option-cases (get_elem? h.tasks i)) [
    | inl e ↦ rw (e, modify) refl
    | inr (t, e) ↦ rw (e, modify) refl
  ]

  pub get_elem?-modify :
      (i j : ℕ) (f : Task → Task) (h : Heap D)
      → get_elem? (modify i f h).tasks j
        ≡ (if i == j then Option.map f (get_elem? h.tasks j) else get_elem? h.tasks j)
  get_elem?-modify i j f h = elim (Bool-cases (i == j)) [
    | inr differ ↦ rw differ (get_elem?-modify_ne i j f h (λ e. cc (differ, (==_iff i j).1 e)))
    | inl same ↦
        let e : i ≡ j = (==_iff i j).0 same in
        rw same (
          rw (← e) (elim (Option-cases (get_elem? h.tasks i)) [
            | inl missing ↦
                ap (λ (k : Heap D). get_elem? k.tasks i) (modify_missing i f h missing)
                ∙ missing
                ∙ sym (ap (Option.map f) missing)
            | inr (t, there) ↦ rw there (get_elem?-modify_self i f t h there)
          ]))
  ]

  pub flag-modify :
      (test : Task → Bool) (i j : ℕ) (f : Task → Task) (h : Heap D)
      → ((t : Task) → test (f t) ≡ test t)
      → flag test (modify i f h).tasks j ≡ flag test h.tasks j
  flag-modify test i j f h keeps =
      ap (flag_of test) (get_elem?-modify i j f h) ∙ elim (Option-cases (get_elem? h.tasks j)) [
        | inl missing ↦ ground (arith, missing)
        | inr (t, there) ↦ ground (arith, there, keeps t)
      ]

  -- A test that the assignment only makes true.
  pub flag-modify_grows :
      (test : Task → Bool) (i j : ℕ) (f : Task → Task) (h : Heap D)
      → ((t : Task) → test t ≡ true → test (f t) ≡ true)
      → flag test h.tasks j ≤ flag test (modify i f h).tasks j
  flag-modify_grows test i j f h grows =
      rw (get_elem?-modify i j f h) (elim (Option-cases (get_elem? h.tasks j)) [
        | inl missing ↦ ground (arith, missing)
        | inr (t, there) ↦ ground (arith, there, grows t)
      ])

  -- A test that the assignment makes true at its place.
  pub flag-modify_set :
      (test : Task → Bool) (i j : ℕ) (f : Task → Task) (t : Task) (h : Heap D)
      → get_elem? h.tasks i ≡ some t
      → test t ≡ false
      → test (f t) ≡ true
      → flag test (modify i f h).tasks j ≡ flag test h.tasks j + (if j == i then 1 else 0)
  flag-modify_set test i j f t h there before after =
      ap (flag_of test) (get_elem?-modify i j f h) ∙ elim (Bool-cases (i == j)) [
        | inl same ↦
            let e : i ≡ j = (==_iff i j).0 same in
            let there' : get_elem? h.tasks j ≡ some t = rw (← e) there in
            ground (arith, there', before, after)
        | inr differ ↦ ground (arith, differ)
      ]
