-- ===== src/Utilities/Arguments/Buffer.antt =====
-- The array of pointers that splitArguments of src/Utilities.cpp fills.
use libcernvm.Prelude.{
  ℕ, zero, suc, ◌+◌, ◌-◌, ◌≤◌, ◌<◌, ◌≡◌, refl, ap, ◌∙◌, List, [], ◌∷◌, none, some, inl, inr, arith,
  if◌then◌else◌, length, set, get_elem?, leb, lt→ltb, length-set, Bool-cases, get_elem?-set_self,
  get_elem?-set_ne,
}
use libcernvm.Prelude.Keys.{Bytes}
use libcernvm.Utilities.Arguments.{Pointer, put_pointer, fill_buffer}

-- The loop stays within the array.
unfoldable pub IsFilled : List Bytes → ℕ → ℕ → List Pointer → Type 0
IsFilled args i size buffer =
    (count : ℕ) × (buffer' : List Pointer) × (fill_buffer args i size buffer
      ≡ some (count, buffer'))
    × (count ≡ (if leb size (i + length args) then size - 1 else i + length args))
    × (length buffer' ≡ length buffer)
    × (get_elem? buffer' count ≡ some none)
    × ((j : ℕ) → j < i → get_elem? buffer' j ≡ get_elem? buffer j)
    × ((k : ℕ) → i + k < count → get_elem? buffer' (i + k) ≡ some (get_elem? args k))

put_pointer-inside :
    (i : ℕ) (p : Pointer) (buffer : List Pointer)
    → i < length buffer
    → put_pointer i p buffer ≡ some (set buffer i p)
unfolding put_pointer
put_pointer-inside i p buffer h = rw (lt→ltb i (length buffer) h) refl

fill_buffer-end :
    (args : List Bytes) (i size : ℕ) (buffer : List Pointer)
    → i < length buffer
    → fill_buffer args i size buffer ≡ some (i, set buffer i none)
    → i ≡ (if leb size (i + length args) then size - 1 else i + length args)
    → IsFilled args i size buffer
unfolding IsFilled
fill_buffer-end args i size buffer h e count = (
  i,
  set buffer i none,
  e,
  count,
  length-set buffer i none,
  get_elem?-set_self buffer i none h,
  λ j below. get_elem?-set_ne buffer none (λ same. omega (arith, same, below)),
  λ k beyond. absurd (omega (arith, beyond)),
)

words_behind :
    (arg : Bytes) (args : List Bytes) (i count : ℕ) (buffer : List Pointer)
    → get_elem? buffer i ≡ some (some arg)
    → ((k : ℕ) → i + 1 + k < count → get_elem? buffer (i + 1 + k) ≡ some (get_elem? args k))
    → (k : ℕ) → i + k < count
    → get_elem? buffer (i + k) ≡ some (get_elem? (arg ∷ args) k)
words_behind arg args i count buffer first rest zero h = ap (get_elem? buffer) same ∙ first
  where
    same : i + 0 ≡ i
    same = omega arith
words_behind arg args i count buffer first rest (suc k) h =
    ap (get_elem? buffer) same ∙ rest k (omega arith)
  where
    same : i + suc k ≡ i + 1 + k
    same = omega arith

-- For an offset below the given size, and an array that has the size at least: the words are handed
-- out from the offset on, without a write outside of the array, until they or the size less one
-- are used up; a NULL stands behind the last, at the number that is answered, which is below the
-- size, and what stands before the offset stays.
pub fill_buffer_lem :
    (args : List Bytes) (i size : ℕ) (buffer : List Pointer)
    → i < size
    → size ≤ length buffer
    → IsFilled args i size buffer
unfolding fill_buffer IsFilled
fill_buffer_lem [] i size buffer h fits =
    fill_buffer-end [] i size buffer (omega arith)
      (rw (put_pointer-inside i none buffer (omega arith), fill_buffer) refl) (ground arith)
fill_buffer_lem (arg ∷ args) i size buffer h fits = elim (Bool-cases (leb size (i + 1))) [
  | inl full ↦
      fill_buffer-end (arg ∷ args) i size buffer (omega arith)
        (rw (full, put_pointer-inside i none buffer (omega arith), fill_buffer) refl)
        (ground (arith, full))
  | inr more ↦
      let inside : i < length buffer = omega arith in
      let put = length-set buffer i (some arg) in
      let next : i + 1 + length args ≡ i + suc (length args) = omega arith in
      let (count, buffer', e, total, same, null, below, words) =
        fill_buffer_lem args (i + 1) size (set buffer i (some arg)) (ground (arith, more))
          (omega (arith, put)) in
      (
        count,
        buffer',
        rw (more, put_pointer-inside i (some arg) buffer inside, fill_buffer) e,
        total ∙ ap (λ n. if leb size n then size - 1 else n) next,
        same ∙ put,
        null,
        λ j under.
            below j (omega (arith, under))
            ∙ get_elem?-set_ne buffer (some arg) (λ e. omega (arith, e, under)),
        words_behind arg args i count buffer'
            (below i (omega arith) ∙ get_elem?-set_self buffer i (some arg) inside) words,
      )
]
