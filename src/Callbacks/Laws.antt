-- ===== src/Callbacks/Laws.antt =====
-- What an event does after listeners come and go.
use libcernvm.Prelude.{
  ℕ, ◌<◌, ◌≡◌, refl, ap, false, List, [], ◌∷◌, ◌++◌, arith, if◌then◌else◌, Option-cases, inl, inr,
  Bool-cases, ◌==◌ as nat_eq,
}
use libcernvm.Prelude.Keys.{Bytes, bytes_key, bytes_beq_iff, ◌==◌}
use libcernvm.Prelude.Member.{mem}
use libcernvm.StdMap
use libcernvm.StdMap.{Map}
use libcernvm.Callbacks.{
  Callbacks, slots_of, on, erase_slot, off, on_any_event, off_any_event, call_all, fire,
}

call_all-append :
    {W : Type 0} (call : ℕ → W → W) (xs : List ℕ) (ptr : ℕ) (w : W)
    → 0 < ptr
    → call_all call (xs ++ ptr ∷ []) w ≡ call ptr (call_all call xs w)
unfolding call_all
call_all-append call [] ptr w h = ground arith
call_all-append call (x ∷ xs) ptr w h = call_all-append call xs ptr _ h

slots_of-assign :
    (name other : Bytes) (slots : List ℕ) (c : Callbacks)
    → slots_of other
        (record c { named_event_callbacks = StdMap.assign name slots c.named_event_callbacks })
      ≡ (if name == other then slots else slots_of other c)
unfolding slots_of
slots_of-assign name other slots c =
    ground (arith, StdMap.find-assign other name slots c.named_event_callbacks)

erase_slot-append :
    (ptr : ℕ) (xs : List ℕ) → mem ptr xs ≡ false → erase_slot ptr (xs ++ ptr ∷ []) ≡ xs
unfolding erase_slot mem
erase_slot-append ptr [] h = ground arith
erase_slot-append ptr (x ∷ xs) h = ground (arith, erase_slot-append ptr xs)

slots_of-on :
    (name other : Bytes) (ptr : ℕ) (c : Callbacks)
    → slots_of other (on name ptr c)
      ≡ (if name == other then slots_of name c ++ ptr ∷ [] else slots_of other c)
unfolding on
slots_of-on name other ptr c = slots_of-assign name other (slots_of name c ++ ptr ∷ []) c

slots_of-off :
    (name other : Bytes) (ptr : ℕ) (c : Callbacks)
    → 0 < ptr
    → slots_of other (off name ptr c)
      ≡ (if name == other then erase_slot ptr (slots_of name c) else slots_of other c)
unfolding off slots_of erase_slot
slots_of-off name other ptr c h = elim (Option-cases (StdMap.find name c.named_event_callbacks)) [
  | inl missing ↦ ground (arith, bytes_beq_iff name other)
  | inr (slots, there) ↦ ground (
    arith,
    bytes_beq_iff name other,
    StdMap.find-assign other name (erase_slot ptr slots) c.named_event_callbacks,
  )
]

any-on :
    (name : Bytes) (ptr : ℕ) (c : Callbacks)
    → (on name ptr c).any_event_callbacks ≡ c.any_event_callbacks
unfolding on
any-on name ptr c = refl

-- The slots after a listener came and went.
slots_of-off_on :
    (name other : Bytes) (ptr : ℕ) (c : Callbacks)
    → 0 < ptr
    → mem ptr (slots_of name c) ≡ false
    → slots_of other (off name ptr (on name ptr c)) ≡ slots_of other c
slots_of-off_on name other ptr c h new = ground (
  arith,
  bytes_beq_iff name other,
  bytes_beq_iff name name,
  slots_of-off name other ptr (on name ptr c) h,
  slots_of-on name other ptr c,
  slots_of-on name name ptr c,
  erase_slot-append ptr (slots_of name c) new,
)

any-off :
    (name : Bytes) (ptr : ℕ) (c : Callbacks)
    → (off name ptr c).any_event_callbacks ≡ c.any_event_callbacks
unfolding off
any-off name ptr c = ground arith

module _ {W : Type 0} (any_call : ℕ → Bytes → W → W) (named_call : ℕ → W → W) where
  -- A listener to a name is called when that event is fired, behind all that are called without it,
  -- and other events do as before.
  pub fire-on :
      (name other : Bytes) (ptr : ℕ) (c : Callbacks) (w : W)
      → 0 < ptr
      → fire any_call named_call other (on name ptr c) w ≡ (
          if name == other
          then named_call ptr (fire any_call named_call other c w)
          else fire any_call named_call other c w)
  unfolding fire
  fire-on name other ptr c w h =
      let before = call_all (λ p. any_call p other) c.any_event_callbacks w in
      rw (slots_of-on name other ptr c, any-on name ptr c)
        (elim (Bool-cases (name == other)) [
          | inl same ↦
              rw (same, (bytes_beq_iff name other).0 same)
                (call_all-append named_call (slots_of other c) ptr before h)
          | inr differ ↦ rw (differ) refl
        ])

  -- A listener that comes and goes leaves every event doing as before, if its slot is new to the name.
  pub fire-off :
      (name other : Bytes) (ptr : ℕ) (c : Callbacks) (w : W)
      → 0 < ptr
      → mem ptr (slots_of name c) ≡ false
      → fire any_call named_call other (off name ptr (on name ptr c)) w
        ≡ fire any_call named_call other c w
  unfolding fire
  fire-off name other ptr c w h new =
      rw
        (
          slots_of-off_on name other ptr c h new,
          any-off name ptr (on name ptr c),
          any-on name ptr c,
        )
        refl

  -- A listener to all events is called for each, behind the others of its kind and before those of
  -- the name; when it goes, if its slot was new, every event does as before.
  pub fire-on_any_event :
      (name : Bytes) (ptr : ℕ) (c : Callbacks) (w : W)
      → 0 < ptr
      → mem ptr c.any_event_callbacks ≡ false
      → (fire any_call named_call name (on_any_event ptr c) w
          ≡ call_all named_call
              (slots_of name c)
              (any_call ptr name (call_all (λ p. any_call p name) c.any_event_callbacks w)))
        × (fire any_call named_call name (off_any_event ptr (on_any_event ptr c)) w
            ≡ fire any_call named_call name c w)
  unfolding fire on_any_event off_any_event slots_of
  fire-on_any_event name ptr c w h new = (
    ap (call_all named_call (slots_of name c))
        (call_all-append (λ p. any_call p name) c.any_event_callbacks ptr w h),
    rw (positive, erase_slot-append ptr c.any_event_callbacks new) refl,
  )
    where
      positive : nat_eq ptr 0 ≡ false
      positive = ground arith
