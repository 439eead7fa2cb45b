-- ===== src/Fsm/Search.antt =====
-- `findShortestPath` of src/SimpleFSM.cpp: a depth-first search that visits no node twice on a path
-- and gives up a path that is no shorter than the best one found.
pub mod Clip
pub mod Sound
pub mod Shortest
use libcernvm.Prelude.{
  ℕ, zero, suc, ◌≡◌, Bool, List, [], ◌∷◌, ◌++◌, Option, none, some, if◌then◌else◌, length, leb,
  ◌==◌,
}
use libcernvm.Prelude.Member.{mem}
use libcernvm.StdMap.{Map}
use libcernvm.Fsm.Graph.{FsmNode, children_of}

-- `*clipLength` and `*bestPath`.
pub record Best : Type 0 where
  pub clip_length : ℕ
  pub best_path : Option (List ℕ)

-- The loop over the children of the last node of `path`; `search` is the recursive call.
unfoldable pub visit : (ℕ → Best → Best) → List ℕ → ℕ → List ℕ → Best → Best
visit search path state [] s = s
visit search path state (n ∷ ns) s =
    let skipped = visit search path state ns s in
    let searched = visit search path state ns (search n s) in
    if mem n path
    then skipped
    else if n == state
    then record { clip_length = length path; best_path = some (path ++ n ∷ []) }
    else searched

unfoldable pub find_shortest_path : ℕ → Map ℕ FsmNode → ℕ → List ℕ → ℕ → Best → Best
find_shortest_path zero nodes state path node s = s
find_shortest_path (suc fuel) nodes state path node s =
    let path' = path ++ node ∷ [] in
    let searched =
      visit (find_shortest_path fuel nodes state path') path' state (children_of nodes node) s in
    if leb s.clip_length (length path') then s else searched
