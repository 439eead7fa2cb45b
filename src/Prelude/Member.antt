-- ===== src/Prelude/Member.antt =====
-- Membership tests on lists of numbers, lists without repetition, and the pigeonhole bound.
use Prim.Native.Nat.{ℕ, suc, ◌≤◌}
use mathlib.Core.Path.{◌≡◌, refl}
use mathlib.Core.Bool.{Bool, true, false, ◌||◌, ◌&&◌}
use mathlib.Core.Logic.{inl, inr}
use mathlib.Core.List.{List, [], ◌∷◌, ◌++◌}
use native.Mathlib.Omega.{arith}
use libcernvm.Prelude.Tests.{◌==◌, if◌then◌else◌, Bool-cases, ==_iff}
use libcernvm.Prelude.Lists.{length}

abbrev pub All {ℓ κ} : {A : Type ℓ} → (A → Type κ) → List A → Type κ
All P [] = Unit
All P (x ∷ xs) = P x × All P xs

unfoldable pub mem : ℕ → List ℕ → Bool
mem a [] = false
mem a (x ∷ xs) = x == a || mem a xs

abbrev pub Distinct : List ℕ → Type 0
Distinct [] = Unit
Distinct (x ∷ xs) = (mem x xs ≡ false) × Distinct xs

-- every member of the first list is one of the second
abbrev pub Within : List ℕ → List ℕ → Type 0
Within xs ys = (a : ℕ) → mem a xs ≡ true → mem a ys ≡ true

pub mem-append : (a : ℕ) (xs ys : List ℕ) → mem a (xs ++ ys) ≡ mem a xs || mem a ys
unfolding mem
mem-append a [] ys = refl
mem-append a (x ∷ xs) ys = ground (arith, mem-append a xs ys)

pub mem-snoc : (a b : ℕ) (xs : List ℕ) → mem a (xs ++ b ∷ []) ≡ mem a xs || b == a
unfolding mem
mem-snoc a b [] = ground arith
mem-snoc a b (x ∷ xs) = ground (arith, mem-snoc a b xs)

pub Distinct-snoc : (b : ℕ) (xs : List ℕ) → Distinct xs → mem b xs ≡ false → Distinct (xs ++ b ∷ [])
unfolding mem
Distinct-snoc b [] d h = (refl, tt)
Distinct-snoc b (x ∷ xs) d h =
    (ground (arith, mem-snoc x b xs), Distinct-snoc b xs d.1 (ground arith))

remove : ℕ → List ℕ → List ℕ
remove a [] = []
remove a (x ∷ xs) = if x == a then xs else x ∷ remove a xs

length-remove : (a : ℕ) (xs : List ℕ) → mem a xs ≡ true → suc (length (remove a xs)) ≡ length xs
unfolding remove mem
length-remove a [] h = ground arith
length-remove a (x ∷ xs) h = ground (arith, length-remove a xs)

mem-remove :
    (a b : ℕ) (xs : List ℕ) → mem b xs ≡ true → (b == a) ≡ false → mem b (remove a xs) ≡ true
unfolding remove mem
mem-remove a b [] h n = ground arith
mem-remove a b (x ∷ xs) h n = ground (arith, mem-remove a b xs)

eq_of_mem : (x a : ℕ) (xs : List ℕ) → mem x xs ≡ false → mem a xs ≡ true → (a == x) ≡ false
unfolding mem
eq_of_mem x a [] h m = ground arith
eq_of_mem x a (y ∷ xs) h m = ground (arith, eq_of_mem x a xs)

-- The pigeonhole principle: a list without repetition is no longer than one that holds it.
pub length_le_of_Within : (xs ys : List ℕ) → Distinct xs → Within xs ys → length xs ≤ length ys
unfolding mem
length_le_of_Within [] ys d w = omega arith
length_le_of_Within (x ∷ xs) ys d w =
    let here : mem x ys ≡ true = w x (ground arith) in
    let rest =
      length_le_of_Within xs (remove x ys) d.1
        (λ a m. mem-remove x a ys (w a (ground arith)) (eq_of_mem x a xs d.0 m)) in
    omega (arith, length-remove x ys here, rest)

-- Every member of a list passes a test.
unfoldable pub all_of : List ℕ → (ℕ → Bool) → Bool
all_of [] test = true
all_of (x ∷ xs) test = test x && all_of xs test

pub all_of_sound :
    (xs : List ℕ) (test : ℕ → Bool) (a : ℕ)
    → all_of xs test ≡ true
    → mem a xs ≡ true
    → test a ≡ true
unfolding all_of mem
all_of_sound [] test a h m = cc
all_of_sound (x ∷ xs) test a h m = elim (Bool-cases (x == a)) [
  | inl same ↦ rw (← (==_iff x a).0 same) (ground arith)
  | inr differ ↦ all_of_sound xs test a (ground arith) (ground arith)
]
