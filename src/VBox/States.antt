-- ===== src/VBox/States.antt =====
-- The states of a VirtualBox session: the FSM_REGISTRY block of
-- include/CernVM/Hypervisor/Virtualbox/VBoxSession.h.
use libcernvm.Prelude.{
  ℕ, ◌≡◌, ◌≢◌, refl, Bool, true, false, ◌||◌, List, [], ◌∷◌, none, some, arith, ◌==◌, inl, inr,
  Option-cases, ==_iff,
}
use libcernvm.Prelude.Member.{mem, all_of, all_of_sound}
use libcernvm.Prelude.Keys.{nat_key}
use libcernvm.StdMap
use libcernvm.StdMap.{Map, is_some}
use libcernvm.Fsm.Graph.{
  FsmNode, Declared, register, registry_add, link_nodes, push_links, links_of, registry_begin,
  registry_end, children_of, IsClosed,
}
use libcernvm.Fsm.Graph.Registered.{registry_end-declared}
use libcernvm.Fsm.Search.{find_shortest_path, visit}
use libcernvm.Fsm.Walks.{Walk}
use libcernvm.Fsm.Engine.{best_route}
use libcernvm.Fsm.Engine.Route.{best_route-Walk}

-- FSM_STATE and FSM_HANDLER
abbrev state : ℕ → List ℕ → Declared
state i links = record { id = i; handler = false; links = links }

abbrev handler : ℕ → List ℕ → Declared
handler i links = record { id = i; handler = true; links = links }

unfoldable pub session_states : List Declared
session_states =
    state 1 (100 ∷ [])
    ∷ state 2 (102 ∷ 112 ∷ [])
    ∷ state 3 (104 ∷ [])
    ∷ state 4 (105 ∷ 108 ∷ [])
    ∷ state 5 (107 ∷ 211 ∷ [])
    ∷ state 6 (109 ∷ 111 ∷ [])
    ∷ state 7 (110 ∷ 106 ∷ [])
    ∷ handler 100 (101 ∷ [])
    ∷ handler 101 (2 ∷ 3 ∷ 4 ∷ 5 ∷ 6 ∷ 7 ∷ [])
    ∷ handler 102 (103 ∷ [])
    ∷ handler 103 (101 ∷ [])
    ∷ handler 104 (4 ∷ [])
    ∷ handler 105 (207 ∷ [])
    ∷ handler 207 (208 ∷ [])
    ∷ handler 208 (3 ∷ [])
    ∷ handler 106 (209 ∷ [])
    ∷ handler 209 (4 ∷ [])
    ∷ handler 211 (206 ∷ [])
    ∷ handler 107 (209 ∷ [])
    ∷ handler 209 (4 ∷ [])
    ∷ handler 108 (210 ∷ [])
    ∷ handler 210 (201 ∷ [])
    ∷ handler 201 (202 ∷ [])
    ∷ handler 202 (203 ∷ [])
    ∷ handler 203 (204 ∷ [])
    ∷ handler 204 (205 ∷ [])
    ∷ handler 205 (206 ∷ [])
    ∷ handler 206 (7 ∷ [])
    ∷ handler 109 (5 ∷ [])
    ∷ handler 110 (6 ∷ [])
    ∷ handler 111 (7 ∷ [])
    ∷ handler 112 []
    ∷ []

-- The graph that the constructor of VBoxSession leaves.
unfoldable pub session_nodes : Map ℕ FsmNode
unfolding session_states registry_end register registry_begin
session_nodes = elim (registry_end 1 (register session_states registry_begin)) [
  | none ↦ []
  | some m ↦ m
]

pub session_linked : registry_end 1 (register session_states registry_begin) ≡ some session_nodes
unfolding session_nodes registry_add link_nodes push_links links_of StdMap.assign StdMap.erase
    StdMap.place StdMap.find
session_linked = refl

pub session-IsClosed : IsClosed session_nodes
session-IsClosed = (registry_end-declared session_states 1 session_nodes session_linked).0

-- All the states but the sink of fatal errors.
abbrev pub live_states : List ℕ
live_states =
    1 ∷ 2 ∷ 3 ∷ 4 ∷ 5 ∷ 6 ∷ 7 ∷ 100 ∷ 101 ∷ 102 ∷ 103 ∷ 104 ∷ 105 ∷ 106 ∷ 107 ∷ 108 ∷ 109 ∷ 110
    ∷ 111 ∷ 201 ∷ 202 ∷ 203 ∷ 204 ∷ 205 ∷ 206 ∷ 207 ∷ 208 ∷ 209 ∷ 210 ∷ 211 ∷ []

-- Destroyed, powered off, saved, paused and running: what the session's methods go to.
abbrev pub target_states : List ℕ
target_states = 3 ∷ 4 ∷ 5 ∷ 6 ∷ 7 ∷ []

has_route : ℕ → ℕ → Bool
has_route from to = from == to || is_some (best_route session_nodes from to)

all_routes : all_of live_states (λ from. all_of target_states (has_route from)) ≡ true
unfolding all_of has_route best_route session_nodes find_shortest_path visit children_of mem
    registry_add link_nodes push_links links_of StdMap.assign StdMap.erase StdMap.place StdMap.find
all_routes = refl

-- From every live state the session can be brought to every target state other than the one it is
-- in: FSMGoto finds a path, and the path is a way there.
pub session_routes :
    (from to : ℕ)
    → mem from live_states ≡ true
    → mem to target_states ≡ true
    → from ≢ to
    → (p : List ℕ) × (best_route session_nodes from to ≡ some p) × Walk session_nodes to from p
unfolding has_route
session_routes from to f t ne =
    let row = all_of_sound live_states _ from all_routes f in
    let cell = all_of_sound target_states (has_route from) to row t in
    elim (Option-cases (best_route session_nodes from to)) [
      | inl gone ↦ absurd (ne ((==_iff from to).0 (ground arith)))
      | inr (p, found) ↦ (p, found, best_route-Walk session_nodes from to p found)
    ]
