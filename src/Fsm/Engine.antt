-- ===== src/Fsm/Engine.antt =====
-- The engine of src/SimpleFSM.cpp: FSMGoto, FSMContinue, FSMJump, FSMSkew, FSMActive and the loop of
-- the thread that drives it. One thread at a time holds the engine, as its mutexes see to.
pub mod Route
pub mod Run
use libcernvm.Prelude.{
  ℕ, zero, suc, ◌+◌, ◌≡◌, Bool, true, false, not, ◌&&◌, List, [], ◌∷◌, ◌++◌, Option, none, some,
  if◌then◌else◌, length, drop, is_nil,
}
use libcernvm.Prelude.Keys.{nat_key}
use libcernvm.StdMap
use libcernvm.StdMap.{Map, is_some}
use libcernvm.Fsm.Graph.{FsmNode, children_of}
use libcernvm.Fsm.Search.{Best, find_shortest_path}

-- The fields of SimpleFSM; `none` is the null pointer. `progress_max` is the maximum of fsmProgress,
-- if there is one; `entered` records the calls of FSMEnteringState, oldest first.
pub record Fsm : Type 0 where
  pub nodes : Map ℕ FsmNode
  pub root : Option ℕ
  pub current : Option ℕ
  pub path : List ℕ
  pub target : ℕ
  pub inside_handler : Bool
  pub has_thread : Bool
  pub paused : Bool
  pub interrupt_requested : Bool
  pub progress_max : Option ℕ
  pub entered : List (ℕ × Bool)

-- `node->handler`
unfoldable pub has_handler : Map ℕ FsmNode → ℕ → Bool
has_handler nodes id = elim (StdMap.find id nodes) [ none ↦ false | some n ↦ n.has_handler ]

-- The solver as FSMGoto sets it up: no path, a clip length of the number of nodes.
unfoldable pub best_route : Map ℕ FsmNode → ℕ → ℕ → Option (List ℕ)
best_route nodes node state =
    (find_shortest_path (length nodes) nodes state [] node
      (record { clip_length = length nodes; best_path = none })).best_path

-- The loop that counts the tasks on the path.
unfoldable pub count_handlers : Map ℕ FsmNode → List ℕ → ℕ
count_handlers nodes [] = 0
count_handlers nodes (n ∷ p) =
    let rest = count_handlers nodes p in if has_handler nodes n then suc rest else rest

-- `_fsmWakeup`
unfoldable pub wakeup : Fsm → Fsm
wakeup s = if s.interrupt_requested then s else record s { paused = false }

-- FSMGoto behind the solver.
unfoldable pub take_route : ℕ → ℕ → Option (List ℕ) → Fsm → Fsm
unfolding wakeup
take_route state strip route s =
    let s1 : Fsm = elim route [
      | none ↦ record s { path = [] }
      | some p ↦ record s { path = drop strip p; target = state }
    ] in
    let s2 : Fsm = elim s1.progress_max [
      | none ↦ s1
      | some _ ↦ record s1 { progress_max = some (count_handlers s1.nodes s1.path) }
    ] in
    if s2.has_thread then wakeup s2 else s2

-- FSMGoto; `none` is the use of a null current node.
unfoldable pub goto : ℕ → ℕ → Fsm → Option Fsm
goto state strip s = elim s.current [
  | none ↦ none
  | some c ↦ some (take_route state strip (best_route s.nodes c state) s)
]

-- How a handler ends: it returns, it is interrupted (boost::thread_interrupted), or it throws
-- anything else.
pub data Outcome : Type 0 where
  returned interrupted failed : Outcome

-- `done b s`: the method returns b. `thrown s`: boost::thread_interrupted leaves the method.
-- `fault`: the front of an empty list is taken.
pub data Result : Type 0 where
  done : Bool → Fsm → Result
  thrown : Fsm → Result
  fault : Result

-- The loop that skips the nodes with no handler: the node it stops at, the path that is left and
-- the states entered.
unfoldable pub skip_states :
    Map ℕ FsmNode → ℕ → List ℕ → List (ℕ × Bool) → ℕ × List ℕ × List (ℕ × Bool)
skip_states nodes next [] entered = (next, [], entered)
skip_states nodes next (n ∷ p) entered =
    let skipped = skip_states nodes n p (entered ++ (next, false) ∷ []) in
    if has_handler nodes next then (next, n ∷ p, entered) else skipped

-- The first half of FSMContinue: the next node is current, and its entry is announced.
unfoldable pub advance : ℕ → List ℕ → Fsm → Fsm
advance n p s =
    let (next, rest, entered) = skip_states s.nodes n p s.entered in
    record s {
      inside_handler = true;
      path = rest;
      current = some next;
      entered = entered ++ (next, is_nil rest) ∷ [];
    }

-- The handlers, which may change the engine themselves.
module _ (handle : ℕ → Fsm → Outcome × Fsm) where
  unfoldable pub end_handler : Bool → Outcome × Fsm → Result
  end_handler in_thread (returned, s) = done true s
  end_handler in_thread (interrupted, s) =
      let s' = record s { inside_handler = false } in if in_thread then thrown s' else done false s'
  end_handler in_thread (failed, s) = done false s

  -- `_callHandler`
  unfoldable pub call_handler : Bool → ℕ → Fsm → Result
  unfolding end_handler
  call_handler in_thread node s =
      if has_handler s.nodes node then end_handler in_thread (handle node s) else done true s

  unfoldable pub leave_handler : Result → Result
  leave_handler (done true s) = done true (record s { inside_handler = false })
  leave_handler (done false s) = done false s
  leave_handler (thrown s) = thrown s
  leave_handler fault = fault

  unfoldable pub continue_on : Bool → List ℕ → Fsm → Result
  continue_on in_thread [] s = fault
  continue_on in_thread (n ∷ p) s =
      let s' = advance n p s in
      elim s'.current [ none ↦ fault | some next ↦ leave_handler (call_handler in_thread next s') ]

  -- FSMContinue
  unfoldable pub continue : Bool → Fsm → Result
  continue in_thread s =
      if s.inside_handler
      then done false s
      else if is_nil s.path && is_some s.current
      then done false s
      else continue_on in_thread s.path s

  -- What FSMJump makes of its handler's end: only an interruption leaves the method.
  unfoldable pub after_jump : Result → Result
  after_jump (done _ s) = done true s
  after_jump (thrown s) = thrown s
  after_jump fault = fault

  -- FSMJump
  unfoldable pub jump : ℕ → Fsm → Result
  jump state s =
      if is_some (StdMap.find state s.nodes)
      then (if has_handler s.nodes state
          then after_jump (
              call_handler true state (record s {
                path = [];
                current = some state;
                entered = s.entered ++ (state, true) ∷ [];
              }))
          else done true (record s { path = []; current = some state }))
      else done true (record s { path = []; current = s.root })

  -- The inner loop of FSMThreadLoop, `while (res)`, on fuel; `none` when the fuel runs out.
  unfoldable pub drain : ℕ → Fsm → Option Result
  drain zero s = none
  drain (suc fuel) s = elim (continue true s) [
    | done b s' ↦ elim b [
      | true ↦ if s'.interrupt_requested then some (done false s') else drain fuel s'
      | false ↦ some (done false s')
    ]
    | thrown s' ↦ some (thrown s')
    | fault ↦ some fault
  ]

-- FSMSkew
unfoldable pub skew : ℕ → Fsm → Option Fsm
skew state s =
    if is_some (StdMap.find state s.nodes)
    then (let s' = record s {
      current = some state;
      entered = s.entered ++ (state, is_nil s.path) ∷ [];
    } in
        if is_nil s'.path then some s' else goto s'.target 0 s')
    else some s

-- FSMActive
unfoldable pub active : Fsm → Bool
active s = not (is_nil s.path)
