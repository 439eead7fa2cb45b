-- ===== src/Fsm/Engine/Run.antt =====
-- FSMContinue and the loop that repeats it.
use libcernvm.Prelude.{
  is_nil, ℕ, zero, suc, ◌+◌, ◌≤◌, ◌<◌, ◌≡◌, ◌≢◌, refl, sym, ◌∙◌, ap, Bool, true, false, List, [],
  ◌∷◌, ◌++◌, some, arith, length, Bool-cases, inl, inr, append_assoc, append-nil, drop,
}
use libcernvm.Prelude.Keys.{nat_key}
use libcernvm.StdMap
use libcernvm.StdMap.{Map, is_some}
use libcernvm.Fsm.Graph.{FsmNode, IsClosed}
use libcernvm.Fsm.Walks.{Walk, stop, step}
use libcernvm.Fsm.Engine.{
  Fsm, Outcome, returned, failed, done, has_handler, skip_states, advance, end_handler,
  call_handler, leave_handler, continue_on, continue, drain, goto, take_route, skew,
}
use libcernvm.Fsm.Engine.Route.{IsShortest, Walk-first, goto-IsShortest, goto-IsShortest_whole}

-- The announcements of a path: each state once, in order, the last one as final.
abbrev pub announce : List ℕ → List (ℕ × Bool)
announce [] = []
announce (n ∷ p) = (n, is_nil p) ∷ announce p

abbrev pub last_of : ℕ → List ℕ → ℕ
last_of n [] = n
last_of n (m ∷ p) = last_of m p

skip_states_lem :
    (nodes : Map ℕ FsmNode) (n : ℕ) (p : List ℕ) (log : List (ℕ × Bool))
    → let (next, rest, log') = skip_states nodes n p log in
      (log' ++ (next, is_nil rest) ∷ announce rest ≡ log ++ announce (n ∷ p))
      × (last_of next rest ≡ last_of n p)
      × (length rest ≤ length p)
unfolding skip_states
skip_states_lem nodes n [] log = (refl, refl, omega arith)
skip_states_lem nodes n (m ∷ p) log = elim (Bool-cases (has_handler nodes n)) [
  | inl h ↦ rw h (refl, refl, omega arith)
  | inr h ↦
      let (a, b, c) = skip_states_lem nodes m p (log ++ (n, false) ∷ []) in
      rw h (a ∙ append_assoc log ((n, false) ∷ []) _, b, omega (arith, c))
]

-- Where the engine stands after an advance.
record Advanced (n : ℕ) (p : List ℕ) (s s' : Fsm) : Type 0 where
  rest : List ℕ
  at : ℕ
  path : s'.path ≡ rest
  current : s'.current ≡ some at
  log : s'.entered ++ announce rest ≡ s.entered ++ announce (n ∷ p)
  end : last_of at rest ≡ last_of n p
  shorter : length rest ≤ length p
  inside : s'.inside_handler ≡ true
  nodes : s'.nodes ≡ s.nodes
  running : s'.interrupt_requested ≡ s.interrupt_requested

advance-Advanced : (n : ℕ) (p : List ℕ) (s : Fsm) → Advanced n p s (advance n p s)
unfolding advance
advance-Advanced n p s =
    let (a, b, c) = skip_states_lem s.nodes n p s.entered in
    record {
      rest = (advance n p s).path;
      at = (skip_states s.nodes n p s.entered).0;
      path = refl;
      current = refl;
      log =
          append_assoc (skip_states s.nodes n p s.entered).2
            (((skip_states s.nodes n p s.entered).0, is_nil (skip_states s.nodes n p s.entered).1)
              ∷ [])
            _
          ∙ a;
      end = b;
      shorter = c;
      inside = refl;
      nodes = refl;
      running = refl;
    }

goto_keeps :
    (to strip : ℕ) (s t : Fsm)
    → goto to strip s ≡ some t
    → (t.inside_handler ≡ s.inside_handler)
      × (t.interrupt_requested ≡ s.interrupt_requested)
      × (t.entered ≡ s.entered)
unfolding goto take_route
goto_keeps to strip s t g = ground arith

pub Walk-last_of :
    {nodes : Map ℕ FsmNode} {last n : ℕ} {p : List ℕ}
    → Walk nodes last n p
    → last_of n (drop 1 p) ≡ last
Walk-last_of (stop e) = e
Walk-last_of {nodes} {last} (step {n} {m} {p} c w) = rw (Walk-first nodes w) (Walk-last_of w)

module _ (handle : ℕ → Fsm → Outcome × Fsm) where
  -- The handlers return and leave the engine alone.
  abbrev pub Quiet : Type 0
  Quiet = (n : ℕ) (s : Fsm) → handle n s ≡ (returned, s)

  call_handler-Quiet : (n : ℕ) (s : Fsm) → Quiet → call_handler handle true n s ≡ done true s
  unfolding call_handler
  call_handler-Quiet n s quiet = elim (Bool-cases (has_handler s.nodes n)) [
    | inl h ↦ rw h (rw (quiet n s) refl)
    | inr h ↦ rw h
  ]

  continue-Quiet :
      (n : ℕ) (p : List ℕ) (s : Fsm)
      → Quiet
      → s.path ≡ n ∷ p
      → s.inside_handler ≡ false
      → continue handle true s ≡ done true (record (advance n p s) { inside_handler = false })
  unfolding continue continue_on leave_handler
  continue-Quiet n p s quiet e out =
      let a = advance-Advanced n p s in
      ground (arith, a.current, call_handler-Quiet a.at (advance n p s) quiet)

  step_on :
      (fuel : ℕ) (n : ℕ) (p : List ℕ) (s : Fsm)
      → Quiet
      → s.path ≡ n ∷ p
      → s.inside_handler ≡ false
      → s.interrupt_requested ≡ false
      → drain handle (suc fuel) s
        ≡ drain handle fuel (record (advance n p s) { inside_handler = false })
  unfolding drain
  step_on fuel n p s quiet e out on =
      let a = advance-Advanced n p s in ground (arith, a.running, continue-Quiet n p s quiet e out)

  -- The loop of the engine's thread, over handlers that return and leave the engine alone, and
  -- outside of a handler and with no interrupt asked for: it ends within one round more than the
  -- path has states, every state on the path is entered once and in order, and the engine ends on
  -- the last of them with nothing left to do.
  pub drain-announces :
      (fuel : ℕ) (at : ℕ) (p : List ℕ) (s : Fsm)
      → Quiet
      → s.path ≡ p
      → s.current ≡ some at
      → s.inside_handler ≡ false
      → s.interrupt_requested ≡ false
      → length p < fuel
      → (s' : Fsm) × (drain handle fuel s ≡ some (done false s'))
        × (s'.path ≡ [])
        × (s'.current ≡ some (last_of at p))
        × (s'.entered ≡ s.entered ++ announce p)
        × (s'.inside_handler ≡ false)
  unfolding drain continue
  drain-announces zero at p s quiet e c out on h = absurd (omega arith)
  drain-announces (suc fuel) at [] s quiet e c out on h =
      (s, ground arith, e, c, sym (append-nil s.entered), out)
  drain-announces (suc fuel) at (n ∷ p) s quiet e c out on h =
      let a = advance-Advanced n p s in
      let s1 : Fsm = record (advance n p s) { inside_handler = false } in
      let stepped : drain handle (suc fuel) s ≡ drain handle fuel s1 =
        step_on fuel n p s quiet e out on in
      let (s', run, path, current, log, inside) =
        drain-announces fuel a.at a.rest s1 quiet a.path a.current refl (a.running ∙ on)
          (omega (arith, a.shorter)) in
      (s', stepped ∙ run, path, current ∙ ap some a.end, log ∙ a.log, inside)

  continue_inside :
      (b : Bool) (s : Fsm) → s.inside_handler ≡ true → continue handle b s ≡ done false s
  unfolding continue
  continue_inside b s h = ground arith

  -- A handler that throws anything but an interruption, and does not take back the mark itself,
  -- leaves the engine marked as inside a handler: no later FSMContinue does anything, FSMGoto or
  -- not.
  pub failed_handler_blocks :
      (in_thread : Bool) (n at : ℕ) (p : List ℕ) (s s' : Fsm)
      → s.path ≡ n ∷ p
      → s.inside_handler ≡ false
      → (advance n p s).current ≡ some at
      → has_handler s.nodes at ≡ true
      → handle at (advance n p s) ≡ (failed, s')
      → s'.inside_handler ≡ true
      → (continue handle in_thread s ≡ done false s')
        × ((b : Bool) → continue handle b s' ≡ done false s')
        × ((b : Bool) (to strip : ℕ) (t : Fsm)
            → goto to strip s' ≡ some t
            → continue handle b t ≡ done false t)
  failed_handler_blocks in_thread n at p s s' e out c has throws inside = (
    unfold continue continue_on call_handler end_handler leave_handler in
        ground (arith, (advance-Advanced n p s).nodes),
    (λ b. continue_inside b s' inside),
    (λ b to strip t g. continue_inside b t ((goto_keeps to strip s' t g).0 ∙ inside)),
  )

  -- FSMGoto to another state that a walk leads to, in an idle engine over a closed graph, and then
  -- the thread's loop over handlers that return and leave the engine alone: the loop ends, the
  -- engine stands on the state with no path left, and it has entered each state of a shortest walk
  -- once, in order.
  pub goto-arrives :
      (from to : ℕ) (q : List ℕ) (s : Fsm)
      → Quiet
      → s.current ≡ some from
      → is_some (StdMap.find from s.nodes) ≡ true
      → s.inside_handler ≡ false
      → s.interrupt_requested ≡ false
      → IsClosed s.nodes
      → from ≢ to
      → Walk s.nodes to from q
      → (s1 s2 : Fsm) × (goto to 1 s ≡ some s1)
        × IsShortest s.nodes from to (from ∷ s1.path)
        × (drain handle (length s1.path + 1) s1 ≡ some (done false s2))
        × (s2.current ≡ some to)
        × (s2.path ≡ [])
        × (s2.entered ≡ s.entered ++ announce s1.path)
  goto-arrives from to q s quiet c here out on closed ne w =
      let (s1, g, short, target, c1, nodes) = goto-IsShortest s from to c here q closed ne w in
      let (in1, on1, log1) = goto_keeps to 1 s s1 g in
      let (s2, run, path, c2, log, inside) =
        drain-announces (length s1.path + 1) from s1.path s1 quiet refl c1 (in1 ∙ out) (on1 ∙ on)
          (omega arith) in
      (
        s1,
        s2,
        g,
        short,
        run,
        c2 ∙ ap some (Walk-last_of short.walk),
        path,
        log ∙ ap (λ l. l ++ announce s1.path) log1,
      )

-- FSMSkew in the middle of a path, over a closed graph, to a state of it that is not the target
-- and from which a walk leads there: the path becomes a shortest walk from the given state, itself
-- included, to the target that the engine had.
pub skew-IsShortest :
    (state n : ℕ) (p q : List ℕ) (s : Fsm)
    → s.path ≡ n ∷ p
    → is_some (StdMap.find state s.nodes) ≡ true
    → IsClosed s.nodes
    → state ≢ s.target
    → Walk s.nodes s.target state q
    → (s' : Fsm) × (skew state s ≡ some s')
      × IsShortest s.nodes state s.target s'.path
      × (s'.target ≡ s.target)
      × (s'.current ≡ some state)
unfolding skew
skew-IsShortest state n p q s e here closed ne w =
    let t : Fsm = record s {
      current = some state;
      entered = s.entered ++ (state, is_nil s.path) ∷ [];
    } in
    let (s', g, short, target, c) =
      goto-IsShortest_whole t state s.target refl here q closed ne w in
    (s', ground arith, short, target, c)
