-- ===== src/Utilities/Text/Positions.antt =====
-- find, find_last_of and substr of std::string: positions are of type size_t, and npos is its
-- largest value.
use libcernvm.Prelude.{
  ℕ, zero, suc, ◌+◌, ◌≡◌, ◌≢◌, refl, sym, ap, ◌∙◌, arith, Bool, true, false, inl, inr, Bool-cases,
  ◌&&◌, [], ◌∷◌, ◌++◌, if◌then◌else◌, length, take, drop, ◌==◌,
}
use libcernvm.Prelude.Member.{mem}
use libcernvm.Prelude.Keys.{Bytes}

abbrev pub npos : ℕ
npos = 18446744073709551615

unfoldable pub first_from : ℕ → Bytes → ℕ → ℕ
first_from c [] at = npos
first_from c (x ∷ s) at = if x == c then at else first_from c s (suc at)

unfoldable pub find_char : ℕ → Bytes → ℕ → ℕ
find_char c s from = first_from c (drop from s) from

unfoldable pub last_from : ℕ → Bytes → ℕ → ℕ → ℕ
last_from c [] at best = best
last_from c (x ∷ s) at best = last_from c s (suc at) (if x == c then at else best)

unfoldable pub find_last_char : ℕ → Bytes → ℕ
find_last_char c s = last_from c s 0 npos

unfoldable pub starts_with : Bytes → Bytes → Bool
starts_with [] s = true
starts_with (x ∷ xs) [] = false
starts_with (x ∷ xs) (y ∷ s) = x == y && starts_with xs s

unfoldable pub text_from : Bytes → Bytes → ℕ → ℕ
text_from t [] at = if starts_with t [] then at else npos
text_from t (x ∷ s) at = if starts_with t (x ∷ s) then at else text_from t s (suc at)

unfoldable pub find_text : Bytes → Bytes → ℕ → ℕ
find_text t s from = text_from t (drop from s) from

-- substr, at a position within the text
unfoldable pub cut : ℕ → ℕ → Bytes → Bytes
cut pos n s = take n (drop pos s)

pub first_from-absent : (c : ℕ) (s : Bytes) (at : ℕ) → mem c s ≡ false → first_from c s at ≡ npos
unfolding first_from mem
first_from-absent c [] at h = refl
first_from-absent c (x ∷ s) at h = ground (arith, first_from-absent c s (suc at))

pub first_from-word :
    (c : ℕ) (w t : Bytes) (at : ℕ)
    → mem c w ≡ false
    → first_from c (w ++ (c ∷ t)) at ≡ at + length w
unfolding first_from mem
first_from-word c [] t at h = ground arith
first_from-word c (x ∷ w) t at h = ground (arith, first_from-word c w t (suc at))

drop_nil : (n : ℕ) → drop {A = ℕ} n [] ≡ []
drop_nil zero = refl
drop_nil (suc n) = refl

pub drop-add : (n m : ℕ) (s : Bytes) → drop m (drop n s) ≡ drop (n + m) s
drop-add zero m s = ap (λ k. drop k s) (omega arith)
drop-add (suc n) m [] = drop_nil m ∙ sym (drop_nil (suc n + m))
drop-add (suc n) m (x ∷ s) =
    let one_more : suc (n + m) ≡ suc n + m = omega arith in
    drop-add n m s ∙ ap (λ k. drop k (x ∷ s)) one_more

-- A text is at the position where it is found.
pub text_from-found :
    (t s : Bytes) (at : ℕ)
    → text_from t s at ≢ npos
    → (k : ℕ) × (text_from t s at ≡ at + k) × (starts_with t (drop k s) ≡ true)
unfolding text_from
text_from-found t [] at found = elim (Bool-cases (starts_with t [])) [
  | inl here ↦ (0, rw here (omega arith), here)
  | inr nowhere ↦ absurd (found (rw nowhere refl))
]
text_from-found t (x ∷ s) at found = elim (Bool-cases (starts_with t (x ∷ s))) [
  | inl here ↦ (0, rw here (omega arith), here)
  | inr further ↦
      let (k, is_at, is_text) = text_from-found t s (suc at) (ground (arith, further, found)) in
      (suc k, rw further (omega (arith, is_at)), is_text)
]
