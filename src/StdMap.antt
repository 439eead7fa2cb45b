-- ===== src/StdMap.antt =====
-- std::map as the sources use it: an association list that iteration walks in key order. `insert`
-- keeps a present entry, as std::map::insert does, and places a new one before the first larger key.
use libcernvm.Prelude.{
  ◌≡◌, refl, inl, inr, Bool, true, false, List, [], ◌∷◌, Option, none, some, arith, if◌then◌else◌,
  Option-cases,
}
use libcernvm.Prelude.Keys.{Key, ◌==◌, ==_refl}

abbrev pub is_some {ℓ} : {A : Type ℓ} → Option A → Bool
is_some none = false
is_some (some _) = true

abbrev pub or_some {ℓ} : {A : Type ℓ} → Option A → Option A → Option A
or_some none b = b
or_some (some a) b = some a

abbrev pub Map : Type 0 → Type 0 → Type 0
Map K V = List (K × V)

module _ {K V : Type 0} ⦃key : Key K⦄ where
  unfoldable pub find : K → Map K V → Option V
  find k [] = none
  find k ((j, v) ∷ m) = if j == k then some v else find k m

  unfoldable pub erase : K → Map K V → Map K V
  erase k [] = []
  erase k ((j, v) ∷ m) = if j == k then erase k m else (j, v) ∷ erase k m

  unfoldable pub place : K → V → Map K V → Map K V
  place k v [] = (k, v) ∷ []
  place k v ((j, w) ∷ m) = if key.blt k j then (k, v) ∷ (j, w) ∷ m else (j, w) ∷ place k v m

  unfoldable pub insert : K → V → Map K V → Map K V
  insert k v m = if is_some (find k m) then m else place k v m

  -- `m[k] = v`
  unfoldable pub assign : K → V → Map K V → Map K V
  assign k v m = place k v (erase k m)

  unfoldable pub keys : Map K V → List K
  keys [] = []
  keys ((j, _) ∷ m) = j ∷ keys m

  -- every key once
  abbrev pub Unique : Map K V → Type 0
  Unique [] = Unit
  Unique ((j, _) ∷ m) = (find j m ≡ none) × Unique m

  -- the same entries, whatever the order
  abbrev pub Same : Map K V → Map K V → Type 0
  Same m n = (k : K) → find k m ≡ find k n

  pub find-place :
      (j k : K) (v : V) (m : Map K V)
      → find k m ≡ none
      → find j (place k v m) ≡ (if k == j then some v else find j m)
  unfolding find place
  find-place j k v [] h = refl
  find-place j k v ((i, w) ∷ m) h =
      ground (arith, key.beq_iff i k, key.beq_iff i j, key.beq_iff k j, find-place j k v m)

  pub find-erase :
      (j k : K) (m : Map K V) → find j (erase k m) ≡ (if k == j then none else find j m)
  unfolding find erase
  find-erase j k [] = ground arith
  find-erase j k ((i, w) ∷ m) =
      ground (arith, key.beq_iff i k, key.beq_iff i j, key.beq_iff k j, find-erase j k m)

  pub find-insert :
      (j k : K) (v : V) (m : Map K V)
      → find j (insert k v m) ≡ (if k == j then or_some (find k m) (some v) else find j m)
  unfolding insert
  find-insert j k v m = ground (arith, find-place j k v m, key.beq_iff k j)

  pub find-assign :
      (j k : K) (v : V) (m : Map K V)
      → find j (assign k v m) ≡ (if k == j then some v else find j m)
  unfolding assign
  find-assign j k v m =
      ground (arith, find-place j k v (erase k m), find-erase k k m, find-erase j k m, ==_refl k)

  pub Unique-place :
      (k : K) (v : V) (m : Map K V) → find k m ≡ none → Unique m → Unique (place k v m)
  unfolding find place
  Unique-place k v [] h u = (refl, tt)
  Unique-place k v ((i, w) ∷ m) h u =
      ground (arith, Unique-place k v m, find-place i k v m, key.beq_iff i k, key.beq_iff k i)

  pub Unique-erase : (k : K) (m : Map K V) → Unique m → Unique (erase k m)
  unfolding find erase
  Unique-erase k [] u = tt
  Unique-erase k ((i, w) ∷ m) u =
      ground (arith, Unique-erase k m, find-erase i k m, key.beq_iff k i)

  pub Unique-insert : (k : K) (v : V) (m : Map K V) → Unique m → Unique (insert k v m)
  unfolding insert
  Unique-insert k v m u = elim (Option-cases (find k m)) [
    | inl e ↦ rw e (Unique-place k v m e u)
    | inr (a, e) ↦ rw e u
  ]

  pub Unique-assign : (k : K) (v : V) (m : Map K V) → Unique m → Unique (assign k v m)
  unfolding assign
  Unique-assign k v m u =
      Unique-place k v (erase k m) (ground (arith, find-erase k k m, ==_refl k))
        (Unique-erase k m u)
