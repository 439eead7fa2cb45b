-- ===== src/ContextIso/Overlays.antt =====
-- What stands in a block of src/contextiso.cpp behind a memcpy.
use libcernvm.Prelude.{ℕ, zero, suc, ◌+◌, ◌≤◌, ◌<◌, ◌≡◌, refl, ap, ◌∙◌, [], ◌∷◌, arith, length}
use libcernvm.Prelude.Keys.{Bytes}
use libcernvm.ContextIso.{Disk, overlay, bytes_at}

pub overlay-below :
    (place : ℕ) (s : Bytes) (m : Disk) (i : ℕ) → i < place → overlay place s m i ≡ m i
unfolding overlay
overlay-below place [] m i h = refl
overlay-below place (c ∷ s) m i h =
    ground (arith, overlay-below (suc place) s m i (omega (arith, h)))

pub overlay-above :
    (place : ℕ) (s : Bytes) (m : Disk) (i : ℕ) → place + length s ≤ i → overlay place s m i ≡ m i
unfolding overlay
overlay-above place [] m i h = refl
overlay-above place (c ∷ s) m i h =
    ground (arith, h, overlay-above (suc place) s m i (omega (arith, h)))

pub overlay-bytes_at :
    (place from n k : ℕ) (p m : Disk)
    → k < n
    → overlay place (bytes_at p from n) m (place + k) ≡ p (from + k)
unfolding overlay bytes_at
overlay-bytes_at place from zero k p m h = absurd (omega (arith, h))
overlay-bytes_at place from (suc n) zero p m h = ground arith
overlay-bytes_at place from (suc n) (suc k) p m h =
    ground (arith, overlay-bytes_at (suc place) (suc from) n k p m (omega (arith, h)))

pub bytes_at-below :
    (place : ℕ) (s : Bytes) (m : Disk) (from n : ℕ)
    → from + n ≤ place
    → bytes_at (overlay place s m) from n ≡ bytes_at m from n
unfolding bytes_at
bytes_at-below place s m from zero h = refl
bytes_at-below place s m from (suc n) h =
    ap (λ c. c ∷ bytes_at (overlay place s m) (suc from) n)
      (overlay-below place s m from (omega (arith, h)))
    ∙ ap (λ r. m from ∷ r) (bytes_at-below place s m (suc from) n (omega (arith, h)))

pub bytes_at-above :
    (place : ℕ) (s : Bytes) (m : Disk) (from n : ℕ)
    → place + length s ≤ from
    → bytes_at (overlay place s m) from n ≡ bytes_at m from n
unfolding bytes_at
bytes_at-above place s m from zero h = refl
bytes_at-above place s m from (suc n) h =
    ap (λ c. c ∷ bytes_at (overlay place s m) (suc from) n) (overlay-above place s m from h)
    ∙ ap (λ r. m from ∷ r) (bytes_at-above place s m (suc from) n (omega (arith, h)))

bytes_at-skip :
    (place : ℕ) (c : ℕ) (s : Bytes) (m : Disk) (from n : ℕ)
    → place < from
    → bytes_at (overlay place (c ∷ s) m) from n ≡ bytes_at (overlay (suc place) s m) from n
unfolding bytes_at overlay
bytes_at-skip place c s m from zero h = refl
bytes_at-skip place c s m from (suc n) h =
    ground (arith, h, bytes_at-skip place c s m (suc from) n (omega (arith, h)))

pub bytes_at-overlay :
    (place : ℕ) (s : Bytes) (m : Disk) → bytes_at (overlay place s m) place (length s) ≡ s
unfolding bytes_at overlay
bytes_at-overlay place [] m = refl
bytes_at-overlay place (c ∷ s) m = ground (
  arith,
  bytes_at-skip place c s m (suc place) (length s) (omega arith),
  bytes_at-overlay (suc place) s m,
)
