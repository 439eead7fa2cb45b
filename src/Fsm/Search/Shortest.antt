-- ===== src/Fsm/Search/Shortest.antt =====
-- The search misses no walk: when it ends, the clip length is below the size of every simple walk.
use libcernvm.Prelude.{
  ℕ, zero, suc, ◌+◌, ◌≤◌, ◌<◌, ◌≡◌, ◌≢◌, refl, ◌∙◌, true, List, [], ◌∷◌, ◌++◌, arith, length,
  length-append, leb, Bool-cases, ◌==◌, ==_iff, inl, inr,
}
use libcernvm.Prelude.Member.{mem, mem-snoc, Distinct, Distinct-snoc, Within, length_le_of_Within}
use libcernvm.Prelude.Keys.{nat_key}
use libcernvm.StdMap
use libcernvm.StdMap.{Map, is_some}
use libcernvm.Fsm.Graph.{FsmNode, children_of, IsClosed}
use libcernvm.Fsm.Search.{Best, visit, find_shortest_path}
use libcernvm.Fsm.Search.Clip.{KeepsClip, visit-clip, find-clip}
use libcernvm.Fsm.Walks.{Simple, arrive, move, Simple-fresh, Simple-pos, Simple-turn}

pub mem-keys : (a : ℕ) (m : Map ℕ FsmNode) → mem a (StdMap.keys m) ≡ is_some (StdMap.find a m)
unfolding mem StdMap.keys StdMap.find
mem-keys a [] = refl
mem-keys a ((j, n) ∷ m) = ground (arith, mem-keys a m)

length-keys : (m : Map ℕ FsmNode) → length (StdMap.keys m) ≡ length m
unfolding StdMap.keys
length-keys [] = refl
length-keys (e ∷ m) = omega (arith, length-keys m)

module _ (nodes : Map ℕ FsmNode) (state : ℕ) where
  abbrev pub Beats : ℕ → List ℕ → (ℕ → Best → Best) → Type 0
  Beats fuel path search =
      (n k : ℕ) (s : Best)
      → n ≢ state
      → length path < s.clip_length
      → s.clip_length ≤ length path + fuel
      → Simple nodes state path n k
      → (search n s).clip_length < length path + k

  visit-Beats :
      (fuel : ℕ) (search : ℕ → Best → Best) (path : List ℕ)
      → ((n : ℕ) → KeepsClip path (search n))
      → Beats fuel path search
      → (ns : List ℕ) (n k : ℕ) (s : Best) → mem n ns ≡ true
      → length path < s.clip_length
      → s.clip_length ≤ length path + fuel
      → Simple nodes state path n k
      → (visit search path state ns s).clip_length < length path + k
  unfolding visit mem
  visit-Beats fuel search path keep beats [] n k s m h f w = ground arith
  visit-Beats fuel search path keep beats (x ∷ ns) n k s m h f w = elim (Bool-cases (mem x path)) [
    | inl old ↦ rw old (
        visit-Beats fuel search path keep beats ns n k s
          (ground (arith, Simple-fresh nodes w, ==_iff x n)) h f w)
    | inr new ↦ elim (Bool-cases (x == state)) [
      | inl e ↦ rw (new, e) (omega (arith, Simple-pos nodes w))
      | inr e ↦
          let kept = keep x s h in
          rw (new, e)
            (elim (Bool-cases (x == n)) [
              | inl same ↦
                  let beat = beats n k s (λ p. cc) h f w in
                  omega (
                    arith,
                    rw (← (==_iff x n).0 same) at beat,
                    visit-clip search path state keep ns (search x s) kept.1,
                  )
              | inr differ ↦
                  visit-Beats fuel search path keep beats ns n k (search x s) (ground arith) kept.1
                    (omega (arith, kept.0)) w
            ])
    ]
  ]

  pub find-Beats :
      (fuel : ℕ) (path : List ℕ) → Beats fuel path (find_shortest_path fuel nodes state path)
  unfolding find_shortest_path
  find-Beats zero path n k s d h f w = absurd (omega arith)
  find-Beats (suc fuel) path n k s d h f w =
      let path' = path ++ n ∷ [] in
      let size = length-append path (n ∷ []) in
      let (m, j, c, r, l) = Simple-turn nodes w d in
      elim (Bool-cases (leb s.clip_length (length path'))) [
        | inl small ↦ rw small (ground (arith, size, Simple-pos nodes r))
        | inr large ↦ rw large (
            let beat =
              visit-Beats fuel (find_shortest_path fuel nodes state path') path'
                (find-clip fuel nodes state path') (find-Beats fuel path') (children_of nodes n) m j
                s c (ground arith) (ground (arith, size)) r in
            ground (arith, beat, size))
      ]

  -- A simple walk in a closed graph holds each node at most once.
  pub Simple-size :
      {path : List ℕ} {n k : ℕ}
      → IsClosed nodes
      → Simple nodes state path n k
      → Distinct path
      → Within path (StdMap.keys nodes)
      → mem n (StdMap.keys nodes) ≡ true
      → length path + k ≤ length nodes
  Simple-size {path} {n} closed (arrive f e l) d w i = omega (
    arith,
    length-append path (n ∷ []),
    length-keys nodes,
    length_le_of_Within (path ++ n ∷ []) (StdMap.keys nodes) (Distinct-snoc n path d f)
        (λ a m. ground (arith, mem-snoc a n path, w a, ==_iff n a)),
  )
  Simple-size {path} {n} closed (move {m} {j} f e c r l) d w i =
      let rest =
        Simple-size closed r (Distinct-snoc n path d f)
          (λ a h. ground (arith, mem-snoc a n path, w a, ==_iff n a))
          (mem-keys m nodes ∙ closed n m c) in
      omega (arith, length-append path (n ∷ []), rest)
