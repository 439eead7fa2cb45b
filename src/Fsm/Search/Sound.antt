-- ===== src/Fsm/Search/Sound.antt =====
-- What the search stores as the best path is a walk to the target without repeated nodes.
use libcernvm.Prelude.{
  ℕ, zero, suc, ◌≡◌, ◌⊎◌, refl, true, false, List, [], ◌∷◌, ◌++◌, none, some, arith, length,
  length-append, leb, Bool-cases, ◌==◌, ==_iff, inl, inr,
}
use libcernvm.Prelude.Member.{mem, Distinct, Distinct-snoc, Within}
use libcernvm.StdMap.{Map}
use libcernvm.Fsm.Graph.{FsmNode, children_of}
use libcernvm.Fsm.Search.{Best, visit, find_shortest_path}
use libcernvm.Fsm.Walks.{Walk, Walk-snoc, IsChild}

module _ (nodes : Map ℕ FsmNode) (state cur clip : ℕ) where
  -- Nothing found yet, or a walk from `cur` to `state` of one node more than the clip length.
  abbrev pub IsSound : Best → Type 0
  IsSound s =
      ((s.clip_length ≡ clip) × (s.best_path ≡ none))
      ⊎ ((p : List ℕ) × (s.best_path ≡ some p)
          × Walk nodes state cur p
          × Distinct p
          × (length p ≡ suc s.clip_length))

  -- The path so far, ending at `n`.
  abbrev pub Reaches : List ℕ → ℕ → Type 0
  Reaches path n = Walk nodes n cur path × Distinct path

  Reaches-snoc :
      (path : List ℕ) (node n : ℕ)
      → Reaches path node
      → IsChild nodes n node
      → mem n path ≡ false
      → Reaches (path ++ n ∷ []) n
  Reaches-snoc path node n r c f = (Walk-snoc nodes n r.0 c, Distinct-snoc n path r.1 f)

  found-IsSound :
      (path : List ℕ) (node n : ℕ)
      → Reaches path node
      → IsChild nodes n node
      → mem n path ≡ false
      → (n == state) ≡ true
      → IsSound (record { clip_length = length path; best_path = some (path ++ n ∷ []) })
  found-IsSound path node n r c f e =
      let more = Reaches-snoc path node n r c f in
      inr (
        path ++ n ∷ [],
        refl,
        rw (← (==_iff n state).0 e) more.0,
        more.1,
        omega (arith, length-append path (n ∷ [])),
      )

  visit-IsSound :
      (search : ℕ → Best → Best) (path : List ℕ) (node : ℕ)
      → Reaches path node
      → ((n : ℕ) (s : Best) → Reaches (path ++ n ∷ []) n → IsSound s → IsSound (search n s))
      → (ns : List ℕ) (s : Best) → Within ns (children_of nodes node)
      → IsSound s
      → IsSound (visit search path state ns s)
  unfolding visit mem
  visit-IsSound search path node r keep [] s w h = h
  visit-IsSound search path node r keep (n ∷ ns) s w h =
      let child : IsChild nodes n node = w n (ground arith) in
      let later : Within ns (children_of nodes node) = λ a m. w a (ground arith) in
      elim (Bool-cases (mem n path)) [
        | inl old ↦ rw old (visit-IsSound search path node r keep ns s later h)
        | inr new ↦ elim (Bool-cases (n == state)) [
          | inl e ↦ rw (new, e) (found-IsSound path node n r child new e)
          | inr e ↦
              rw (new, e)
                (visit-IsSound search path node r keep ns (search n s) later
                  (keep n s (Reaches-snoc path node n r child new) h))
        ]
      ]

  pub find-IsSound :
      (fuel : ℕ) (path : List ℕ) (node : ℕ) (s : Best)
      → Reaches (path ++ node ∷ []) node
      → IsSound s
      → IsSound (find_shortest_path fuel nodes state path node s)
  unfolding find_shortest_path
  find-IsSound zero path node s r h = h
  find-IsSound (suc fuel) path node s r h =
      elim (Bool-cases (leb s.clip_length (length (path ++ node ∷ [])))) [
        | inl c ↦ rw c h
        | inr c ↦ rw c (
            visit-IsSound _ (path ++ node ∷ []) node r (find-IsSound fuel (path ++ node ∷ []))
              (children_of nodes node) s (λ a m. m) h)
      ]
