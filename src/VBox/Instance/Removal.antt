-- ===== src/VBox/Instance/Removal.antt =====
-- One round of the clean-up of src/Hypervisor/Virtualbox/VBoxInstance.cpp, and how many it takes.
use libcernvm.Prelude.{
  ℕ, zero, suc, ◌+◌, ◌≤◌, ◌<◌, ◌≡◌, inl, inr, true, false, [], ◌∷◌, none, some, arith, is_nil,
  length, get_elem?, Bool-cases, ltb, ltb→lt,
}
use libcernvm.Prelude.Keys.{Bytes, bytes_key, bytes_beq, bytes_beq_iff}
use libcernvm.StdMap
use libcernvm.StdMap.{Map, is_some}
use libcernvm.Hypervisor.Sessions.{Session}
use libcernvm.VBox.Instance.{
  Table, close_gone, forget_session, session_delete, is_registered, clean_sessions,
}

-- Rounds for so many sessions
unfoldable pub rounds : ℕ → ℕ
rounds zero = 1
rounds (suc n) = n + 2 + rounds n

pub rounds_step : (a b : ℕ) → a < b → rounds a + a + 1 ≤ rounds b
unfolding rounds
rounds_step a zero h = absurd (omega (arith, h))
rounds_step a (suc b) h = elim (Bool-cases (ltb a b)) [
  | inl less ↦ ground (arith, less, rounds_step a b (ltb→lt a b less))
  | inr last ↦ ground (arith, h, last)
]

pub rounds_pos : (n : ℕ) → 1 ≤ rounds n
unfolding rounds
rounds_pos zero = omega arith
rounds_pos (suc n) = omega arith

module _ {W : Type 0} where
  pub length-erase_le :
      (u : Bytes) (m : Map Bytes (Session W)) → length (StdMap.erase u m) ≤ length m
  unfolding StdMap.erase
  length-erase_le u [] = omega arith
  length-erase_le u ((j, v) ∷ m) = ground (arith, length-erase_le u m)

  pub length-erase :
      (m : Map Bytes (Session W)) (i : ℕ) (k : Bytes) (s : Session W)
      → get_elem? m i ≡ some (k, s)
      → (length (StdMap.erase k m) < length m) × (is_some (StdMap.find k m) ≡ true)
  unfolding StdMap.erase StdMap.find
  length-erase [] i k s e = cc
  length-erase ((j, v) ∷ m) zero k s e =
      let same : j ≡ k = cc in
      let there : bytes_beq j k ≡ true = (bytes_beq_iff j k).1 same in
      (ground (arith, there, length-erase_le k m), ground (arith, there))
  length-erase ((j, v) ∷ m) (suc i) k s e =
      let (shorter, there) = length-erase m i k s e in
      (ground (arith, shorter), ground (arith, there))

  pub sessions-session_delete :
      (u : Bytes) (t : Table W)
      → is_some (StdMap.find u t.hv.sessions) ≡ true
      → (session_delete u t).hv.sessions ≡ StdMap.erase u t.hv.sessions
  unfolding session_delete forget_session close_gone
  sessions-session_delete u t h = ground (arith, h)

  -- One round at a session that the hypervisor does not know, when others are left
  pub clean-gone :
      (fuel : ℕ) (vms : Map Bytes Bytes) (i : ℕ) (t : Table W) (k : Bytes) (s : Session W)
      → get_elem? t.hv.sessions i ≡ some (k, s)
      → is_registered vms s ≡ false
      → is_nil (session_delete s.uuid t).hv.sessions ≡ false
      → clean_sessions (suc fuel) vms i t ≡ clean_sessions fuel vms 1 (session_delete s.uuid t)
  unfolding clean_sessions
  clean-gone fuel vms i t k s e gone left = ground (arith, e, gone, left)

  pub clean-stays :
      (fuel : ℕ) (vms : Map Bytes Bytes) (i : ℕ) (t : Table W) (k : Bytes) (s : Session W)
      → get_elem? t.hv.sessions i ≡ some (k, s)
      → is_registered vms s ≡ true
      → clean_sessions (suc fuel) vms i t ≡ clean_sessions fuel vms (i + 1) t
  unfolding clean_sessions
  clean-stays fuel vms i t k s e known = ground (arith, e, known)

  pub clean-ends :
      (fuel : ℕ) (vms : Map Bytes Bytes) (i : ℕ) (t : Table W)
      → get_elem? t.hv.sessions i ≡ none
      → clean_sessions (suc fuel) vms i t ≡ some t
  unfolding clean_sessions
  clean-ends fuel vms i t e = ground (arith, e)
