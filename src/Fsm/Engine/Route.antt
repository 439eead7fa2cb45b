-- ===== src/Fsm/Engine/Route.antt =====
-- FSMGoto takes a shortest route.
use libcernvm.Prelude.{
  ℕ, ◌≤◌, ◌<◌, ◌≡◌, ◌≢◌, ◌⊎◌, refl, sym, ◌∙◌, ap, true, List, [], ◌∷◌, none, some, arith, length,
  ==_iff, inl, inr, drop,
}
use mathlib.Core.Path.{subst}
use libcernvm.Prelude.Member.{mem, Distinct}
use libcernvm.Prelude.Keys.{nat_key}
use libcernvm.StdMap
use libcernvm.StdMap.{Map, is_some}
use libcernvm.Fsm.Graph.{FsmNode, IsClosed}
use libcernvm.Fsm.Search.{Best, find_shortest_path}
use libcernvm.Fsm.Search.Clip.{find-clip}
use libcernvm.Fsm.Search.Sound.{IsSound, find-IsSound}
use libcernvm.Fsm.Search.Shortest.{find-Beats, Simple-size, mem-keys}
use libcernvm.Fsm.Walks.{Walk, stop, step, Walk-inv, Walk-Simple}
use libcernvm.Fsm.Engine.{Fsm, best_route, take_route, goto}

module _ (nodes : Map ℕ FsmNode) where
  -- A walk without repetition, and none is shorter.
  pub record IsShortest (from to : ℕ) (p : List ℕ) : Type 0 where
    pub walk : Walk nodes to from p
    pub distinct : Distinct p
    pub shortest : (q : List ℕ) → Walk nodes to from q → length p ≤ length q

  Present : ℕ → Type 0
  Present n = is_some (StdMap.find n nodes) ≡ true

  abbrev searched : ℕ → ℕ → Best
  searched from to =
      find_shortest_path (length nodes) nodes to [] from
        (record { clip_length = length nodes; best_path = none })

  length_pos : (n : ℕ) (m : Map ℕ FsmNode) → is_some (StdMap.find n m) ≡ true → 0 < length m
  unfolding StdMap.find
  length_pos n [] h = cc
  length_pos n (e ∷ m) h = omega arith

  searched-IsSound : (from to : ℕ) → IsSound nodes to from (length nodes) (searched from to)
  unfolding mem
  searched-IsSound from to =
      find-IsSound nodes to from (length nodes) (length nodes) [] from _ (stop refl, (refl, tt))
        (inl (refl, refl))

  -- What the solver finds is a walk.
  pub best_route-Walk :
      (from to : ℕ) (p : List ℕ) → best_route nodes from to ≡ some p → Walk nodes to from p
  unfolding best_route
  best_route-Walk from to p found = elim (searched-IsSound from to) [
    | inl (_, e) ↦ cc
    | inr (q, e, w, d, l) ↦ let same : q ≡ p = cc in subst (Walk nodes to from) same w
  ]

  -- The clip length is below the size of every walk.
  searched-clip :
      (from to : ℕ) (q : List ℕ)
      → IsClosed nodes
      → is_some (StdMap.find from nodes) ≡ true
      → from ≢ to
      → Walk nodes to from q
      → ((searched from to).clip_length < length nodes)
        × ((searched from to).clip_length < length q)
  unfolding mem
  searched-clip from to q closed here ne w =
      let (k, s, l) = Walk-Simple nodes w in
      let small = Simple-size nodes to closed s tt (λ a h. cc) (mem-keys from nodes ∙ here) in
      let beat =
        find-Beats nodes to (length nodes) [] from k
          (record { clip_length = length nodes; best_path = none }) ne (length_pos from nodes here)
          (omega arith) s in
      (omega (arith, beat, small), omega (arith, beat, l))

  -- If a walk leads from one state to another, the solver finds a shortest one.
  pub best_route-IsShortest :
      (from to : ℕ) (q : List ℕ)
      → IsClosed nodes
      → is_some (StdMap.find from nodes) ≡ true
      → from ≢ to
      → Walk nodes to from q
      → (p : List ℕ) × (best_route nodes from to ≡ some p) × IsShortest from to p
  unfolding best_route
  best_route-IsShortest from to q closed here ne w = elim (searched-IsSound from to) [
    | inl (e, _) ↦ absurd (omega (arith, searched-clip from to q closed here ne w))
    | inr (p, e, v, d, l) ↦ (
      p,
      e,
      record {
        walk = v;
        distinct = d;
        shortest = λ q' w'. omega (arith, searched-clip from to q' closed here ne w');
      },
    )
  ]

  Walk-end : {last n : ℕ} {p : List ℕ} → Walk nodes last n p → mem last p ≡ true
  unfolding mem
  Walk-end (stop {n} e) = ground (arith, ==_iff n _)
  Walk-end (step {n} c w) = ground (arith, Walk-end w)

  pub Walk-first : {last n : ℕ} {p : List ℕ} → Walk nodes last n p → p ≡ n ∷ drop 1 p
  Walk-first (stop e) = refl
  Walk-first (step c w) = refl

  -- A walk back to its start repeats it.
  Walk-back : {n : ℕ} {p : List ℕ} → Walk nodes n n p → Distinct p → length p ≡ 1
  Walk-back w d = elim (Walk-inv nodes w) [
    | inl (_, e) ↦ ap length e
    | inr (m, q, e, c, v) ↦ cc (Walk-end v, (subst Distinct e d).0)
  ]

  -- The solver finds nothing when no walk leads to the state, and nothing when the state is current.
  pub best_route-none :
      (from to : ℕ)
      → is_some (StdMap.find from nodes) ≡ true
      → ((q : List ℕ) → ¬ Walk nodes to from q) ⊎ (from ≡ to)
      → best_route nodes from to ≡ none
  unfolding best_route
  best_route-none from to here none_or_same = elim (searched-IsSound from to) [
    | inl (_, e) ↦ e
    | inr (p, e, v, d, l) ↦ elim none_or_same [
      | inl no_walk ↦ absurd (no_walk p v)
      | inr same ↦
          let kept =
            find-clip (length nodes) nodes to [] from
              (record { clip_length = length nodes; best_path = none })
              (length_pos from nodes here) in
          absurd
            (omega (arith, kept.1, l, Walk-back (subst (λ x. Walk nodes x from p) (sym same) v) d))
    ]
  ]

-- What FSMGoto does with the solver's answer.
pub take_route-some :
    (to strip : ℕ) (p : List ℕ) (s : Fsm)
    → let s' = take_route to strip (some p) s in
      (s'.path ≡ drop strip p) × (s'.target ≡ to) × (s'.current ≡ s.current) × (s'.nodes ≡ s.nodes)
unfolding take_route
take_route-some to strip p s = ground arith

take_route-none :
    (to strip : ℕ) (s : Fsm)
    → let s' = take_route to strip none s in
      (s'.path ≡ []) × (s'.target ≡ s.target) × (s'.current ≡ s.current)
unfolding take_route
take_route-none to strip s = ground arith

module _ (s : Fsm) (from to : ℕ) (current : s.current ≡ some from)
    (present : is_some (StdMap.find from s.nodes) ≡ true) where
  goto_at :
      (strip : ℕ) → goto to strip s ≡ some (take_route to strip (best_route s.nodes from to) s)
  unfolding goto
  goto_at strip = ground arith

  -- FSMGoto, over a closed graph and to another state that a walk leads to, sets the path to a
  -- shortest walk to the state, without the current node that it starts with, and makes the state
  -- the target.
  pub goto-IsShortest :
      (q : List ℕ)
      → IsClosed s.nodes
      → from ≢ to
      → Walk s.nodes to from q
      → (s' : Fsm) × (goto to 1 s ≡ some s')
        × IsShortest s.nodes from to (from ∷ s'.path)
        × (s'.target ≡ to)
        × (s'.current ≡ some from)
        × (s'.nodes ≡ s.nodes)
  goto-IsShortest q closed ne w =
      let (p, e, short) = best_route-IsShortest s.nodes from to q closed present ne w in
      let (path, target, same, nodes) = take_route-some to 1 p s in
      let whole : from ∷ (take_route to 1 (some p) s).path ≡ p =
        ap (◌∷◌ from) path ∙ sym (Walk-first s.nodes short.walk) in
      (
        take_route to 1 (some p) s,
        goto_at 1 ∙ ap (λ r. some (take_route to 1 r s)) e,
        subst (IsShortest s.nodes from to) (sym whole) short,
        target,
        same ∙ current,
        nodes,
      )

  -- With no way to the state, or at the state already, FSMGoto only drops the path.
  pub goto_nowhere :
      ((q : List ℕ) → ¬ Walk s.nodes to from q) ⊎ (from ≡ to)
      → (s' : Fsm) × (goto to 1 s ≡ some s')
        × (s'.path ≡ [])
        × (s'.target ≡ s.target)
        × (s'.current ≡ some from)
  goto_nowhere h =
      let (path, target, same) = take_route-none to 1 s in
      (
        take_route to 1 none s,
        goto_at 1
            ∙ ap (λ r. some (take_route to 1 r s)) (best_route-none s.nodes from to present h),
        path,
        target,
        same ∙ current,
      )

  -- With strip 0, as FSMSkew calls it, the path begins with the current node.
  pub goto-IsShortest_whole :
      (q : List ℕ)
      → IsClosed s.nodes
      → from ≢ to
      → Walk s.nodes to from q
      → (s' : Fsm) × (goto to 0 s ≡ some s')
        × IsShortest s.nodes from to s'.path
        × (s'.target ≡ to)
        × (s'.current ≡ some from)
  goto-IsShortest_whole q closed ne w =
      let (p, e, short) = best_route-IsShortest s.nodes from to q closed present ne w in
      let (path, target, same, nodes) = take_route-some to 0 p s in
      (
        take_route to 0 (some p) s,
        goto_at 0 ∙ ap (λ r. some (take_route to 0 r s)) e,
        subst (IsShortest s.nodes from to) (sym path) short,
        target,
        same ∙ current,
      )
