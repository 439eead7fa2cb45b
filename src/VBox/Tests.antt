-- ===== src/VBox/Tests.antt =====
-- The engine at work on the states of a VirtualBox session.
use libcernvm.Prelude.{
  ℕ, ◌+◌, ◌≡◌, refl, Bool, true, false, List, [], ◌∷◌, none, some, arith, length,
}
use libcernvm.Prelude.Member.{mem}
use libcernvm.Prelude.Keys.{nat_key}
use libcernvm.StdMap
use libcernvm.StdMap.{Map, is_some}
use libcernvm.Fsm.Graph.{registry_add, link_nodes, push_links, links_of, children_of, IsClosed}
use libcernvm.Fsm.Graph.Registered.{registry_end-declared, or_nil, declared_links}
use libcernvm.Fsm.Search.{find_shortest_path, visit}
use libcernvm.Fsm.Walks.{Walk, stop, step}
use libcernvm.Fsm.Engine.{
  Fsm, Outcome, returned, failed, done, has_handler, skip_states, advance, best_route, goto,
  continue, drain,
}
use libcernvm.Fsm.Engine.Route.{IsShortest, goto-IsShortest}
use libcernvm.Fsm.Engine.Run.{announce, failed_handler_blocks, goto-arrives}
use libcernvm.VBox.States.{session_states, session_nodes, session_linked, session-IsClosed}

-- The engine of a session in a state, with a path to follow.
abbrev pub engine : ℕ → List ℕ → ℕ → Fsm
engine current path target = record {
  nodes = session_nodes;
  root = some 1;
  current = some current;
  path = path;
  target = target;
  inside_handler = false;
  has_thread = true;
  paused = true;
  interrupt_requested = false;
  progress_max = some 0;
  entered = [];
}

route_to_running :
    best_route session_nodes 3 7
    ≡ some (3 ∷ 104 ∷ 4 ∷ 108 ∷ 210 ∷ 201 ∷ 202 ∷ 203 ∷ 204 ∷ 205 ∷ 206 ∷ 7 ∷ [])
unfolding best_route session_nodes find_shortest_path visit children_of mem registry_add link_nodes
    push_links links_of StdMap.assign StdMap.erase StdMap.place StdMap.find
route_to_running = refl

abbrev boot : List ℕ
boot = 3 ∷ 104 ∷ 4 ∷ []

boot-Walk : Walk session_nodes 4 3 boot
unfolding session_nodes children_of mem registry_add link_nodes push_links links_of StdMap.assign
    StdMap.erase StdMap.place StdMap.find
boot-Walk = step refl (step refl (stop refl))

resume-Walk : Walk session_nodes 7 5 (5 ∷ 211 ∷ 206 ∷ 7 ∷ [])
unfolding session_nodes children_of mem registry_add link_nodes push_links links_of StdMap.assign
    StdMap.erase StdMap.place StdMap.find
resume-Walk = step refl (step refl (step refl (stop refl)))

session_has :
    (is_some (StdMap.find 3 session_nodes) ≡ true) × (is_some (StdMap.find 5 session_nodes) ≡ true)
unfolding session_nodes registry_add link_nodes push_links links_of StdMap.assign StdMap.erase
    StdMap.place StdMap.find
session_has = (refl, refl)

registry_end-declared_example :
    IsClosed session_nodes
    × (is_some (StdMap.find 1 session_nodes) ≡ true)
    × ((i : ℕ)
        → (children_of session_nodes i ≡ or_nil (declared_links session_states i none))
          × (is_some (StdMap.find i session_nodes)
              ≡ is_some (declared_links session_states i none)))
registry_end-declared_example = registry_end-declared session_states 1 session_nodes session_linked

goto-IsShortest_example :
    (s' : Fsm) × (goto 4 1 (engine 3 [] 1) ≡ some s')
    × IsShortest session_nodes 3 4 (3 ∷ s'.path)
    × (s'.target ≡ 4)
    × (s'.current ≡ some 3)
    × (s'.nodes ≡ session_nodes)
goto-IsShortest_example =
    goto-IsShortest (engine 3 [] 1) 3 4 refl session_has.0 boot session-IsClosed (omega arith)
      boot-Walk

abbrev pub quiet_handlers : ℕ → Fsm → Outcome × Fsm
quiet_handlers n s = (returned, s)

goto-arrives_example :
    (s1 s2 : Fsm) × (goto 4 1 (engine 3 [] 1) ≡ some s1)
    × IsShortest session_nodes 3 4 (3 ∷ s1.path)
    × (drain quiet_handlers (length s1.path + 1) s1 ≡ some (done false s2))
    × (s2.current ≡ some 4)
    × (s2.path ≡ [])
    × (s2.entered ≡ announce s1.path)
goto-arrives_example =
    goto-arrives quiet_handlers 3 4 boot (engine 3 [] 1) (λ n s. refl) refl session_has.0 refl refl
      session-IsClosed (omega arith) boot-Walk

abbrev failing_handlers : ℕ → Fsm → Outcome × Fsm
failing_handlers n s = (failed, s)

-- CreateVM throws.
abbrev creating : Fsm
creating = engine 3 (104 ∷ 4 ∷ []) 4

create_at :
    ((advance 104 (4 ∷ []) creating).current ≡ some 104)
    × (has_handler session_nodes 104 ≡ true)
    × ((advance 104 (4 ∷ []) creating).inside_handler ≡ true)
unfolding advance skip_states has_handler session_nodes registry_add link_nodes push_links links_of
    StdMap.assign StdMap.erase StdMap.place StdMap.find
create_at = (refl, refl, refl)

failed_handler_blocks_example :
    (continue failing_handlers true creating ≡ done false (advance 104 (4 ∷ []) creating))
    × ((b : Bool)
        → continue failing_handlers b (advance 104 (4 ∷ []) creating)
          ≡ done false (advance 104 (4 ∷ []) creating))
    × ((b : Bool) (to strip : ℕ) (t : Fsm)
        → goto to strip (advance 104 (4 ∷ []) creating) ≡ some t
        → continue failing_handlers b t ≡ done false t)
failed_handler_blocks_example =
    failed_handler_blocks failing_handlers true 104 104 (4 ∷ []) creating
      (advance 104 (4 ∷ []) creating) refl refl create_at.0 create_at.1 refl create_at.2
