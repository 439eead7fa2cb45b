-- ===== src/Fsm/Walks.antt =====
-- Walks in the graph of states, and walks that a depth-first search may follow.
use libcernvm.Prelude.{
  ℕ, zero, suc, ◌≤◌, ◌<◌, ◌≡◌, ◌≢◌, ◌⊎◌, inl, inr, refl, sym, ◌∙◌, true, false, List, [], ◌∷◌, ◌++◌,
  arith, length, Bool-cases, ◌==◌, ==_iff,
}
use libcernvm.Prelude.Keys.{nat_key}
use libcernvm.Prelude.Member.{mem, mem-snoc, All}
use libcernvm.StdMap.{Map}
use libcernvm.Fsm.Graph.{FsmNode, children_of}

module _ (nodes : Map ℕ FsmNode) where
  abbrev pub IsChild : ℕ → ℕ → Type 0
  IsChild m n = mem m (children_of nodes n) ≡ true

  -- The listed nodes lead from the first to `last`, each a child of the one before.
  pub data Walk (last : ℕ) : ℕ → List ℕ → Type 0 where
    stop : {n : ℕ} → n ≡ last → Walk last n (n ∷ [])
    step : {n m : ℕ} {p : List ℕ} → IsChild m n → Walk last m p → Walk last n (n ∷ p)

  -- A walk of `k` nodes from `n` to `last` that meets no node of `path`, meets none twice, and
  -- meets `last` only at its end.
  pub data Simple (last : ℕ) : List ℕ → ℕ → ℕ → Type 0 where
    arrive :
        {path : List ℕ} {n k : ℕ} → mem n path ≡ false → n ≡ last → k ≡ 1 → Simple last path n k
    move :
        {path : List ℕ} {n m k j : ℕ}
        → mem n path ≡ false
        → n ≢ last
        → IsChild m n
        → Simple last (path ++ n ∷ []) m j
        → k ≡ suc j
        → Simple last path n k

  pub Simple-fresh :
      {last : ℕ} {path : List ℕ} {n k : ℕ} → Simple last path n k → mem n path ≡ false
  Simple-fresh (arrive f e l) = f
  Simple-fresh (move f d c r l) = f

  pub Simple-pos : {last : ℕ} {path : List ℕ} {n k : ℕ} → Simple last path n k → 0 < k
  Simple-pos (arrive f e l) = omega arith
  Simple-pos (move f d c r l) = omega arith

  pub Simple-turn :
      {last : ℕ} {path : List ℕ} {n k : ℕ}
      → Simple last path n k
      → n ≢ last
      → (m j : ℕ) × IsChild m n × Simple last (path ++ n ∷ []) m j × (k ≡ suc j)
  Simple-turn (arrive f e l) d = absurd (d e)
  Simple-turn (move {m} {j} f d c r l) _ = (m, j, c, r, l)

  pub Walk-snoc :
      {last n : ℕ} {p : List ℕ} (m : ℕ) → Walk last n p → IsChild m last → Walk m n (p ++ m ∷ [])
  Walk-snoc m (stop e) c = step (rw e c) (stop refl)
  Walk-snoc m (step d w) c = step d (Walk-snoc m w c)

  abbrev Avoids : List ℕ → List ℕ → Type 0
  Avoids path p = All (λ x. mem x path ≡ false) p

  -- A walk cut back to its last visit of `a`.
  record Cut (last a : ℕ) (path : List ℕ) (size : ℕ) : Type 0 where
    rest : List ℕ
    walk : Walk last a (a ∷ rest)
    once : mem a rest ≡ false
    avoids : Avoids path (a ∷ rest)
    shorter : length rest < size

  cut :
      {last n : ℕ} {p : List ℕ} (a : ℕ) (path : List ℕ)
      → Walk last n p
      → Avoids path p
      → (mem a p ≡ false) ⊎ Cut last a path (length p)
  unfolding mem
  cut {last} a path (stop {n} e) av = elim (Bool-cases (n == a)) [
    | inl same ↦ inr (record {
      rest = [];
      walk = stop (sym ((==_iff n a).0 same) ∙ e);
      once = refl;
      avoids = ground (arith, ==_iff n a);
      shorter = omega arith;
    })
    | inr differ ↦ inl (ground arith)
  ]
  cut {last} a path (step {n} {m} {p} c w) av = elim (cut a path w av.1) [
    | inr k ↦ inr (record {
      rest = k.rest;
      walk = k.walk;
      once = k.once;
      avoids = k.avoids;
      shorter = omega (arith, k.shorter);
    })
    | inl out ↦ elim (Bool-cases (n == a)) [
      | inl same ↦
          let e = (==_iff n a).0 same in
          inr (record {
            rest = p;
            walk = rw (← e) (step c w);
            once = out;
            avoids = (rw (← e) av.0, av.1);
            shorter = omega arith;
          })
      | inr differ ↦ inl (ground arith)
    ]
  ]

  Walk-head : {last n : ℕ} {p : List ℕ} → Walk last n p → mem n p ≡ true
  unfolding mem
  Walk-head (stop {n} e) = ground arith
  Walk-head (step {n} c w) = ground arith

  pub Walk-inv :
      {last n : ℕ} {q : List ℕ}
      → Walk last n q
      → ((n ≡ last) × (q ≡ n ∷ []))
        ⊎ ((m : ℕ) × (p : List ℕ) × (q ≡ n ∷ p) × IsChild m n × Walk last m p)
  Walk-inv (stop e) = inl (e, refl)
  Walk-inv (step {m} {p} c w) = inr (m, p, refl, c, w)

  Avoids-snoc :
      (n : ℕ) (path p : List ℕ) → mem n p ≡ false → Avoids path p → Avoids (path ++ n ∷ []) p
  unfolding mem
  Avoids-snoc n path [] h av = tt
  Avoids-snoc n path (x ∷ p) h av =
      (ground (arith, mem-snoc x n path), Avoids-snoc n path p (ground arith) av.1)

  abbrev Shortened : ℕ → List ℕ → ℕ → List ℕ → Type 0
  Shortened last path n p = (k : ℕ) × Simple last path n k × (k ≤ length p)

  -- Every walk has a simple one that is no longer.
  simplify :
      (fuel : ℕ) {last n : ℕ} {p : List ℕ} (path : List ℕ)
      → Walk last n p
      → Avoids path p
      → length p ≤ fuel
      → Shortened last path n p
  unfolding mem
  simplify zero path (stop e) av h = absurd (omega arith)
  simplify zero path (step c w) av h = absurd (omega arith)
  simplify (suc fuel) {last} {n} {p} path w av h = elim (cut n path w av) [
    | inl out ↦ cc (Walk-head w)
    | inr k ↦ elim (Bool-cases (n == last)) [
      | inl same ↦ (1, arrive k.avoids.0 ((==_iff n last).0 same) refl, omega (arith, k.shorter))
      | inr differ ↦ elim (Walk-inv k.walk) [
        | inl (e, _) ↦ cc ((==_iff n last).1 e)
        | inr (m, q, e, c, v) ↦
            let same : q ≡ k.rest = cc in
            let ends : Walk last m k.rest = rw (← same) v in
            let (j, s, l) =
              simplify fuel (path ++ n ∷ []) ends (Avoids-snoc n path k.rest k.once k.avoids.1)
                (omega (arith, k.shorter)) in
            (
              suc j,
              move k.avoids.0 (λ x. cc ((==_iff n last).1 x)) c s refl,
              omega (arith, k.shorter),
            )
      ]
    ]
  ]

  Avoids-nil : (p : List ℕ) → Avoids [] p
  unfolding mem
  Avoids-nil [] = tt
  Avoids-nil (x ∷ p) = (refl, Avoids-nil p)

  pub Walk-Simple : {last n : ℕ} {p : List ℕ} → Walk last n p → Shortened last [] n p
  Walk-Simple {p} w = simplify (length p) [] w (Avoids-nil p) (omega arith)
