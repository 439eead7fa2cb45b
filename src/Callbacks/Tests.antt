-- ===== src/Callbacks/Tests.antt =====
-- Listeners at work.
use libcernvm.Prelude.{ℕ, ◌≡◌, List, [], ◌∷◌, ◌++◌, arith}
use libcernvm.Prelude.Keys.{Bytes, bytes_key, bytes_beq}
use libcernvm.StdMap
use libcernvm.Callbacks.{Callbacks, slots_of, on, call_all, fire}
use libcernvm.Callbacks.Laws.{fire-on}

abbrev started : Bytes
started = b's' ∷ []

-- One listener to all events, and one to the start.
abbrev listeners : Callbacks
listeners = record { any_event_callbacks = 1 ∷ []; named_event_callbacks = (started, 2 ∷ []) ∷ [] }

-- The world is the list of the slots that were called.
abbrev note_any : ℕ → Bytes → List ℕ → List ℕ
note_any ptr name called = called ++ ptr ∷ []

abbrev note_named : ℕ → List ℕ → List ℕ
note_named ptr called = called ++ ptr ∷ []

fire-on_example : fire note_any note_named started (on started 3 listeners) [] ≡ 1 ∷ 2 ∷ 3 ∷ []
unfolding fire call_all slots_of StdMap.find bytes_beq
fire-on_example = fire-on note_any note_named started started 3 listeners [] (omega arith)
