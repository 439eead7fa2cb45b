-- ===== src/VBox/Instance/Closing.antt =====
-- What sessionClose of src/Hypervisor/Virtualbox/VBoxInstance.cpp leaves of a session that is open more
-- than once.
use libcernvm.Prelude.{
  ℕ, zero, suc, ◌+◌, ◌%◌, ◌<◌, ◌≡◌, refl, sym, ap, ◌∙◌, false, List, [], ◌∷◌, ◌++◌, Option, none,
  some, arith,
}
use libcernvm.Prelude.Keys.{Bytes, bytes_key, bytes_beq_iff}
use libcernvm.StdMap
use libcernvm.StdMap.{Map}
use libcernvm.Hypervisor.Sessions.{Session}
use libcernvm.VBox.Instance.{
  Table, listed, erase_first, share_session, is_missing, close_last, session_close,
}

-- Without the first entry of a uuid
erase_first-append :
    (u : Bytes) (us vs : List Bytes)
    → listed u us ≡ false
    → erase_first u (us ++ (u ∷ vs)) ≡ us ++ vs
unfolding listed erase_first
erase_first-append u [] vs h = ground (arith, bytes_beq_iff u u)
erase_first-append u (v ∷ us) vs h = ground (arith, erase_first-append u us vs (ground (arith, h)))

module _ {W : Type 0} where
  -- The session with a uuid is closed so many times.
  unfoldable pub close_times : ℕ → Bytes → Table W → Table W
  close_times zero uuid t = t
  close_times (suc n) uuid t = elim (StdMap.find uuid t.hv.sessions) [
    | none ↦ t
    | some sess ↦ close_times n uuid (session_close sess t)
  ]

  find-share_session :
      (sess old : Session W) (m : Map Bytes (Session W))
      → StdMap.find sess.uuid m ≡ some old
      → StdMap.find sess.uuid (share_session sess m) ≡ some sess
  unfolding StdMap.find share_session
  find-share_session sess old [] h = cc
  find-share_session sess old ((id, s) ∷ m) h = ground (arith, h, find-share_session sess old m)

  close_times-step :
      (n : ℕ) (uuid : Bytes) (sess : Session W) (t : Table W)
      → StdMap.find uuid t.hv.sessions ≡ some sess
      → close_times (suc n) uuid t ≡ close_times n uuid (session_close sess t)
  unfolding close_times
  close_times-step n uuid sess t found =
      ap
        (λ (o : Option (Session W)). elim o [
          | none ↦ t
          | some s ↦ close_times n uuid (session_close s t)
        ])
        found

  -- The table with another count of the instances of a session
  abbrev counted : ℕ → Session W → Table W → Table W
  counted n sess t = record t {
    hv = record (t.hv) { sessions = share_session (record sess { instances = n }) t.hv.sessions };
  }

  session_close-more :
      (n : ℕ) (sess : Session W) (t : Table W)
      → sess.instances ≡ suc (suc n)
      → suc (suc n) < 2147483648
      → session_close sess t ≡ counted (suc n) sess t
  unfolding session_close
  session_close-more n sess t count small =
      let left : (sess.instances + 4294967295) % 4294967296 ≡ suc n = omega (arith, count, small) in
      rw left (ground (arith, small))

  session_close-last :
      (sess : Session W) (t : Table W)
      → sess.instances ≡ 1
      → is_missing sess ≡ false
      → session_close sess t ≡ close_last sess.uuid (counted 0 sess t)
  unfolding session_close
  session_close-last sess t count stays =
      let left : (sess.instances + 4294967295) % 4294967296 ≡ 0 = omega (arith, count) in
      rw left (ground (arith, stays))

  find-counted :
      (n : ℕ) (uuid : Bytes) (sess : Session W) (t : Table W)
      → StdMap.find uuid t.hv.sessions ≡ some sess
      → sess.uuid ≡ uuid
      → StdMap.find uuid (counted n sess t).hv.sessions ≡ some (record sess { instances = n })
  find-counted n uuid sess t found id =
      let m = t.hv.sessions in
      let sess' = record sess { instances = n } in
      ap (λ u. StdMap.find u (share_session sess' m)) (sym id)
      ∙ find-share_session sess' sess m (ap (λ u. StdMap.find u m) id ∙ found)

  -- When a session of the table, which is among the open sessions, is closed as often as it has instances,
  -- and its machine is not missing: the first of its entries among the open sessions is gone, every other
  -- entry, of this or another session, stays in its order, and the session has no instances left.
  pub close_times-one_entry :
      (n : ℕ) (uuid : Bytes) (sess : Session W) (t : Table W) (us vs : List Bytes)
      → StdMap.find uuid t.hv.sessions ≡ some sess
      → sess.uuid ≡ uuid
      → sess.instances ≡ suc n
      → suc n < 2147483648
      → is_missing sess ≡ false
      → t.hv.open_sessions ≡ us ++ (uuid ∷ vs)
      → listed uuid us ≡ false
      → ((close_times (suc n) uuid t).hv.open_sessions ≡ us ++ vs)
        × (StdMap.find uuid (close_times (suc n) uuid t).hv.sessions
            ≡ some (record sess { instances = 0 }))
  unfolding close_last is_missing close_times
  close_times-one_entry zero uuid sess t us vs found id count small stays opened first =
      let closed : close_times 1 uuid t ≡ close_last sess.uuid (counted 0 sess t) =
        close_times-step 0 uuid sess t found ∙ session_close-last sess t count stays in
      (
        ap (λ (c : Table W). c.hv.open_sessions) closed
            ∙ ap (λ u. erase_first u t.hv.open_sessions) id
            ∙ ap (erase_first uuid) opened
            ∙ erase_first-append uuid us vs first,
        ap (λ (c : Table W). StdMap.find uuid c.hv.sessions) closed
            ∙ find-counted 0 uuid sess t found id,
      )
  close_times-one_entry (suc n) uuid sess t us vs found id count small stays opened first =
      let closed : close_times (suc (suc n)) uuid t
          ≡ close_times (suc n) uuid (counted (suc n) sess t) =
        close_times-step (suc n) uuid sess t found
        ∙ ap (close_times (suc n) uuid) (session_close-more n sess t count small) in
      let (entries, left) =
        close_times-one_entry n uuid (record sess { instances = suc n }) (counted (suc n) sess t) us
          vs (find-counted (suc n) uuid sess t found id) id refl (omega (arith, small)) stays opened
          first in
      (
        ap (λ (c : Table W). c.hv.open_sessions) closed ∙ entries,
        ap (λ (c : Table W). StdMap.find uuid c.hv.sessions) closed ∙ left,
      )
