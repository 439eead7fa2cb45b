-- ===== src/Fsm/Search/Clip.antt =====
-- The clip length only falls, and stays above the length of the path being searched.
use libcernvm.Prelude.{
  ℕ, zero, suc, ◌≤◌, ◌<◌, List, [], ◌∷◌, ◌++◌, arith, length, length-append, leb, Bool-cases, inl,
  inr,
}
use libcernvm.StdMap.{Map}
use libcernvm.Fsm.Graph.{FsmNode, children_of}
use libcernvm.Fsm.Search.{Best, visit, find_shortest_path}

abbrev pub KeepsClip : List ℕ → (Best → Best) → Type 0
KeepsClip path f =
    (s : Best)
    → length path < s.clip_length
    → ((f s).clip_length ≤ s.clip_length) × (length path < (f s).clip_length)

pub visit-clip :
    (search : ℕ → Best → Best) (path : List ℕ) (state : ℕ)
    → ((n : ℕ) → KeepsClip path (search n))
    → (ns : List ℕ) (s : Best) → length path < s.clip_length
    → let s' = visit search path state ns s in
      (s'.clip_length ≤ s.clip_length) × (length path ≤ s'.clip_length)
unfolding visit
visit-clip search path state keep [] s h = (omega arith, omega arith)
visit-clip search path state keep (n ∷ ns) s h = ground (
  arith,
  keep n s h,
  visit-clip search path state keep ns s,
  visit-clip search path state keep ns (search n s),
)

pub find-clip :
    (fuel : ℕ) (nodes : Map ℕ FsmNode) (state : ℕ) (path : List ℕ) (node : ℕ)
    → KeepsClip path (find_shortest_path fuel nodes state path node)
unfolding find_shortest_path
find-clip zero nodes state path node s h = (omega arith, h)
find-clip (suc fuel) nodes state path node s h =
    elim (Bool-cases (leb s.clip_length (length (path ++ node ∷ [])))) [
      | inl c ↦ rw c (omega arith, h)
      | inr c ↦
          let path' = path ++ node ∷ [] in
          let size = length-append path (node ∷ []) in
          let kept =
            visit-clip (find_shortest_path fuel nodes state path') path' state
              (find-clip fuel nodes state path') (children_of nodes node) s (ground arith) in
          rw c (kept.0, ground (arith, size, kept.1))
    ]
