-- ===== src/Fsm/Graph/Registered.antt =====
-- What FSMRegistryEnd builds from the declarations.
use mathlib.Core.Path.{subst}
use libcernvm.Prelude.{
  ℕ, ◌≡◌, refl, sym, ◌∙◌, ap, Bool, true, List, [], ◌∷◌, ◌++◌, Option, none, some, arith,
  if◌then◌else◌, Bool-cases, inl, inr, append_assoc, append-nil, ==_iff, ◌==◌, Option-cases,
}
use libcernvm.Prelude.Member.{mem}
use libcernvm.Prelude.Keys.{nat_key}
use libcernvm.StdMap
use libcernvm.StdMap.{Map, is_some}
use libcernvm.Fsm.Graph.{
  FsmNode, Registry, registry_begin, registry_add, Declared, register, links_of, push_links,
  link_nodes, registry_end, children_of, IsClosed,
}

abbrev Registers : Map ℕ FsmNode → List ℕ → Type 0
Registers all links = (l : ℕ) → mem l links ≡ true → is_some (StdMap.find l all) ≡ true

push_links-some :
    (all : Map ℕ FsmNode) (node node' : FsmNode) (links : List ℕ)
    → push_links all node links ≡ some node'
    → (node' ≡ record node { children = node.children ++ links }) × Registers all links
unfolding push_links mem
push_links-some all node node' [] e = (rw (append-nil node.children) (ground arith), λ l h. cc)
push_links-some all node node' (l ∷ links) e = elim (Option-cases (StdMap.find l all)) [
  | inl missing ↦ ground arith
  | inr (n, here) ↦
      let (same, rest) =
        push_links-some all (record node { children = node.children ++ l ∷ [] }) node' links
          (ground arith) in
      (
        same ∙ ap (λ c. record node { children = c }) (append_assoc node.children (l ∷ []) links),
        λ k h. ground (arith, rest k, ==_iff l k),
      )
]

-- A linked map against the one it was made from: the same ids, each node with its links appended.
Linked : Map ℕ FsmNode → Map ℕ (List ℕ) → Option FsmNode → Option FsmNode → ℕ → Type 0
Linked all routes none o i = o ≡ none
Linked all routes (some n) o i =
    (o ≡ some (record n { children = n.children ++ links_of routes i }))
    × Registers all (links_of routes i)

link_nodes-Linked :
    (all : Map ℕ FsmNode) (routes : Map ℕ (List ℕ)) (m m' : Map ℕ FsmNode)
    → link_nodes all routes m ≡ some m'
    → (i : ℕ) → Linked all routes (StdMap.find i m) (StdMap.find i m') i
unfolding Linked link_nodes StdMap.find
link_nodes-Linked all routes [] m' e i = ground arith
link_nodes-Linked all routes ((j, n) ∷ m) m' e i =
    elim (Option-cases (push_links all n (links_of routes j))) [
      | inl bad ↦ ground arith
      | inr (n', good) ↦ elim (Option-cases (link_nodes all routes m)) [
        | inl bad ↦ ground arith
        | inr (r, rest) ↦
            let whole : (j, n') ∷ r ≡ m' = ground arith in
            let (same, regs) = push_links-some all n n' (links_of routes j) good in
            let ih = link_nodes-Linked all routes m r rest i in
            rw (← whole) (elim (Bool-cases (j == i)) [
              | inl e ↦ rw e (rw (← (==_iff j i).0 e) (ap some same, regs))
              | inr e ↦ rw e ih
            ])
      ]
    ]

-- Before FSMRegistryEnd each node stands under its id and has no children.
abbrev IsFresh : Map ℕ FsmNode → Type 0
IsFresh m = (i : ℕ) (n : FsmNode) → StdMap.find i m ≡ some n → (n.id ≡ i) × (n.children ≡ [])

registry_add-IsFresh :
    (id : ℕ) (h : Bool) (links : List ℕ) (r : Registry)
    → IsFresh r.nodes
    → IsFresh (registry_add id h links r).nodes
unfolding registry_add
registry_add-IsFresh id h links r fresh i n e = ground (
  arith,
  StdMap.find-assign i id (record { id = id; has_handler = h; children = [] }) r.nodes,
  fresh i n,
  ==_iff id i,
)

register-IsFresh :
    (ds : List Declared) (r : Registry) → IsFresh r.nodes → IsFresh (register ds r).nodes
unfolding register
register-IsFresh [] r fresh = fresh
register-IsFresh (d ∷ ds) r fresh =
    register-IsFresh ds _ (registry_add-IsFresh d.id d.handler d.links r fresh)

-- The links of the last declaration of an id.
abbrev pub declared_links : List Declared → ℕ → Option (List ℕ) → Option (List ℕ)
declared_links [] i last = last
declared_links (d ∷ ds) i last = declared_links ds i (if d.id == i then some d.links else last)

abbrev pub or_nil : Option (List ℕ) → List ℕ
or_nil none = []
or_nil (some links) = links

register-routes :
    (ds : List Declared) (r : Registry) (i : ℕ)
    → StdMap.find i (register ds r).tmp_route_links
      ≡ declared_links ds i (StdMap.find i r.tmp_route_links)
unfolding register
register-routes [] r i = refl
register-routes (d ∷ ds) r i =
    register-routes ds (registry_add d.id d.handler d.links r) i
    ∙ ap (declared_links ds i)
        (unfold registry_add in StdMap.find-assign i d.id d.links r.tmp_route_links)

-- The nodes and the routes have the same ids.
abbrev SameIds : Registry → Type 0
SameIds r = (i : ℕ) → is_some (StdMap.find i r.nodes) ≡ is_some (StdMap.find i r.tmp_route_links)

registry_add-SameIds :
    (id : ℕ) (h : Bool) (links : List ℕ) (r : Registry)
    → SameIds r
    → SameIds (registry_add id h links r)
unfolding registry_add
registry_add-SameIds id h links r same i = ground (
  arith,
  StdMap.find-assign i id (record { id = id; has_handler = h; children = [] }) r.nodes,
  StdMap.find-assign i id links r.tmp_route_links,
  same i,
)

register-SameIds : (ds : List Declared) (r : Registry) → SameIds r → SameIds (register ds r)
unfolding register
register-SameIds [] r same = same
register-SameIds (d ∷ ds) r same =
    register-SameIds ds _ (registry_add-SameIds d.id d.handler d.links r same)

-- One id of the linked map, in a registry that is fresh.
Linked-at :
    (r : Registry) (m : Map ℕ FsmNode) (i : ℕ)
    → IsFresh r.nodes
    → SameIds r
    → Linked r.nodes r.tmp_route_links (StdMap.find i r.nodes) (StdMap.find i m) i
    → (children_of m i ≡ links_of r.tmp_route_links i)
      × (is_some (StdMap.find i m) ≡ is_some (StdMap.find i r.nodes))
      × Registers r.nodes (children_of m i)
unfolding Linked children_of links_of mem
Linked-at r m i fresh same linked = elim (Option-cases (StdMap.find i r.nodes)) [
  | inl missing ↦
      let gone : StdMap.find i m ≡ none =
        subst (λ o. Linked r.nodes r.tmp_route_links o (StdMap.find i m) i) missing linked in
      (ground (arith, same i), rw (gone, missing), λ l h. ground arith)
  | inr (n, here) ↦
      let found : Linked r.nodes r.tmp_route_links (some n) (StdMap.find i m) i =
        subst (λ o. Linked r.nodes r.tmp_route_links o (StdMap.find i m) i) here linked in
      let kids : children_of m i ≡ links_of r.tmp_route_links i =
        kids_of n (fresh i n here).1 found.0 in
      (kids, ground (arith, found.0), subst (Registers r.nodes) (sym kids) found.1)
]
  where
    kids_of :
        (n : FsmNode)
        → n.children ≡ []
        → StdMap.find i m
          ≡ some (record n { children = n.children ++ links_of r.tmp_route_links i })
        → children_of m i ≡ links_of r.tmp_route_links i
    kids_of n none_yet found =
        rw (found, children_of) (ap (λ c. c ++ links_of r.tmp_route_links i) none_yet)

declared_route :
    (ds : List Declared) (i : ℕ)
    → StdMap.find i (register ds registry_begin).tmp_route_links ≡ declared_links ds i none
declared_route ds i =
    register-routes ds registry_begin i ∙ unfold registry_begin StdMap.find in refl

links_of_declared :
    (ds : List Declared) (i : ℕ)
    → links_of (register ds registry_begin).tmp_route_links i ≡ or_nil (declared_links ds i none)
unfolding links_of
links_of_declared ds i = ground (arith, declared_route ds i)

-- When FSMRegistryEnd ends well, every link and the root are declared, and the children of a state
-- are the links of its last declaration.
pub registry_end-declared :
    (ds : List Declared) (root : ℕ) (m : Map ℕ FsmNode)
    → registry_end root (register ds registry_begin) ≡ some m
    → IsClosed m
      × (is_some (StdMap.find root m) ≡ true)
      × ((i : ℕ)
          → (children_of m i ≡ or_nil (declared_links ds i none))
            × (is_some (StdMap.find i m) ≡ is_some (declared_links ds i none)))
unfolding registry_end
registry_end-declared ds root m e =
    let r = register ds registry_begin in
    let fresh =
      register-IsFresh ds registry_begin (λ i n h. unfold registry_begin StdMap.find in cc) in
    let same =
      register-SameIds ds registry_begin (λ i. unfold registry_begin StdMap.find in refl) in
    elim (Option-cases (link_nodes r.nodes r.tmp_route_links r.nodes)) [
      | inl bad ↦ ground arith
      | inr (m', good) ↦
          let whole : (m' ≡ m) × (is_some (StdMap.find root m) ≡ true) = ground arith in
          let here = λ (i : ℕ).
            Linked-at r m i fresh same
              (link_nodes-Linked r.nodes r.tmp_route_links r.nodes m (good ∙ ap some whole.0) i) in
          (
            λ i l h. (here l).1 ∙ (here i).2 l h,
            whole.1,
            λ i. (
              (here i).0 ∙ links_of_declared ds i,
              (here i).1 ∙ same i ∙ ap is_some (declared_route ds i),
            ),
          )
    ]
