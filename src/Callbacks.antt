-- ===== src/Callbacks.antt =====
-- src/Callbacks.cpp: listeners to named events and to all events.
pub mod Laws
mod Tests
use libcernvm.Prelude.{
  ℕ, ◌≡◌, Bool, true, false, List, [], ◌∷◌, ◌++◌, Option, none, some, if◌then◌else◌, ◌==◌,
}
use libcernvm.Prelude.Keys.{Bytes, bytes_key}
use libcernvm.StdMap
use libcernvm.StdMap.{Map}

-- A slot pointer is a number, and the null pointer is 0.
pub record Callbacks : Type 0 where
  pub any_event_callbacks : List ℕ
  pub named_event_callbacks : Map Bytes (List ℕ)

-- The slots of an event, when it has an entry.
unfoldable pub slots_of : Bytes → Callbacks → List ℕ
slots_of name c = elim (StdMap.find name c.named_event_callbacks) [ none ↦ [] | some slots ↦ slots ]

-- on, which answers the slot that it makes, at a new address.
unfoldable pub on : Bytes → ℕ → Callbacks → Callbacks
on name ptr c = record c {
  named_event_callbacks = StdMap.assign name (slots_of name c ++ ptr ∷ []) c.named_event_callbacks;
}

-- The loop that erases the first slot that is the given one.
unfoldable pub erase_slot : ℕ → List ℕ → List ℕ
erase_slot ptr [] = []
erase_slot ptr (x ∷ slots) = let rest = erase_slot ptr slots in if x == ptr then slots else x ∷ rest

-- off
unfoldable pub off : Bytes → ℕ → Callbacks → Callbacks
off name ptr c = if ptr == 0 then c else elim (StdMap.find name c.named_event_callbacks) [
  | none ↦ c
  | some slots ↦ record c {
    named_event_callbacks = StdMap.assign name (erase_slot ptr slots) c.named_event_callbacks;
  }
]

-- onAnyEvent
unfoldable pub on_any_event : ℕ → Callbacks → Callbacks
on_any_event ptr c = record c { any_event_callbacks = c.any_event_callbacks ++ ptr ∷ [] }

-- offAnyEvent
unfoldable pub off_any_event : ℕ → Callbacks → Callbacks
off_any_event ptr c =
    if ptr == 0 then c else record c { any_event_callbacks = erase_slot ptr c.any_event_callbacks }

-- A loop of fire. A callback that throws has done what it did before, and the loop goes on.
unfoldable pub call_all : {W : Type 0} → (ℕ → W → W) → List ℕ → W → W
call_all call [] w = w
call_all call (ptr ∷ slots) w = call_all call slots (if ptr == 0 then w else call ptr w)

-- fire: what the callbacks do to the world, the arguments with it, is given for each slot. They run
-- under the mutex, so that they change no listeners.
unfoldable pub fire : {W : Type 0} → (ℕ → Bytes → W → W) → (ℕ → W → W) → Bytes → Callbacks → W → W
fire any_call named_call name c w =
    call_all named_call (slots_of name c)
      (call_all (λ ptr. any_call ptr name) c.any_event_callbacks w)
