-- ===== src/Fsm/Graph.antt =====
-- The registry of src/SimpleFSM.cpp: nodes with their handlers and links.
pub mod Registered
use libcernvm.Prelude.{ℕ, ◌≡◌, refl, Bool, true, List, [], ◌∷◌, ◌++◌, Option, none, some, arith}
use libcernvm.Prelude.Keys.{nat_key}
use libcernvm.StdMap
use libcernvm.StdMap.{Map, is_some}
use libcernvm.Prelude.Member.{mem}

-- `has_handler` is the test `if (node->handler)`. `children` holds the ids of the nodes pointed to.
pub record FsmNode : Type 0 where
  pub id : ℕ
  pub has_handler : Bool
  pub children : List ℕ

pub record Registry : Type 0 where
  pub nodes : Map ℕ FsmNode
  pub tmp_route_links : Map ℕ (List ℕ)

unfoldable pub registry_begin : Registry
registry_begin = record { nodes = []; tmp_route_links = [] }

-- The links are the variadic arguments before the final 0.
unfoldable pub registry_add : ℕ → Bool → List ℕ → Registry → Registry
registry_add id handler links r = record {
  nodes = StdMap.assign id (record { id = id; has_handler = handler; children = [] }) r.nodes;
  tmp_route_links = StdMap.assign id links r.tmp_route_links;
}

-- One FSM_HANDLER or FSM_STATE line of a registry.
pub record Declared : Type 0 where
  pub id : ℕ
  pub handler : Bool
  pub links : List ℕ

-- The block of FSM_REGISTRY between FSMRegistryBegin and FSMRegistryEnd.
unfoldable pub register : List Declared → Registry → Registry
register [] r = r
register (d ∷ ds) r = register ds (registry_add d.id d.handler d.links r)

-- `fsmTmpRouteLinks[id]` makes an empty entry for a missing id.
unfoldable pub links_of : Map ℕ (List ℕ) → ℕ → List ℕ
links_of routes id = elim (StdMap.find id routes) [ none ↦ [] | some links ↦ links ]

-- The loop over the links of one node. `none` stands for the dereference of `fsmNodes.end()`.
unfoldable pub push_links : Map ℕ FsmNode → FsmNode → List ℕ → Option FsmNode
push_links nodes node [] = some node
push_links nodes node (l ∷ links) =
    let rest = push_links nodes (record node { children = node.children ++ l ∷ [] }) links in
    elim (StdMap.find l nodes) [ none ↦ none | some _ ↦ rest ]

-- The loop over `fsmNodes`; `all` is the whole map, whose keys the loop does not change.
unfoldable pub link_nodes : Map ℕ FsmNode → Map ℕ (List ℕ) → Map ℕ FsmNode → Option (Map ℕ FsmNode)
link_nodes all routes [] = some []
link_nodes all routes ((id, node) ∷ m) = elim (push_links all node (links_of routes id)) [
  | none ↦ none
  | some node' ↦ elim (link_nodes all routes m) [ none ↦ none | some m' ↦ some ((id, node') ∷ m') ]
]

-- `FSMRegistryEnd`: the linked nodes; the root must be among them.
unfoldable pub registry_end : ℕ → Registry → Option (Map ℕ FsmNode)
registry_end root r = elim (link_nodes r.nodes r.tmp_route_links r.nodes) [
  | none ↦ none
  | some m ↦ elim (StdMap.find root m) [ none ↦ none | some _ ↦ some m ]
]

-- The children of a node pointer.
unfoldable pub children_of : Map ℕ FsmNode → ℕ → List ℕ
children_of nodes id = elim (StdMap.find id nodes) [ none ↦ [] | some node ↦ node.children ]

-- Each link leads to a node of the map.
abbrev pub IsClosed : Map ℕ FsmNode → Type 0
IsClosed nodes =
    (i l : ℕ) → mem l (children_of nodes i) ≡ true → is_some (StdMap.find l nodes) ≡ true
