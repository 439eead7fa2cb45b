-- ===== src/VBox/Instance/Cleaning.antt =====
-- What the clean-up of src/Hypervisor/Virtualbox/VBoxInstance.cpp leaves in the table.
use libcernvm.Prelude.{
  ℕ, zero, suc, ◌+◌, ◌-◌, ◌≤◌, ◌≡◌, refl, sym, ap, ◌∙◌, inl, inr, true, false, [], ◌∷◌, some, arith,
  is_nil, length, get_elem?, get_elem?-lt, Bool-cases, Option-cases,
}
use libcernvm.Prelude.Keys.{Bytes, bytes_key, bytes_beq, bytes_beq_iff}
use libcernvm.Prelude.Member.{All}
use libcernvm.StdMap
use libcernvm.StdMap.{Map, is_some}
use libcernvm.Hypervisor.Sessions.{Session}
use libcernvm.VBox.Instance.{Table, session_delete, is_registered, clean_sessions}
use libcernvm.VBox.Instance.Removal.{
  rounds, rounds_step, rounds_pos, length-erase_le, length-erase, sessions-session_delete,
  clean-gone, clean-stays, clean-ends,
}

module _ {W : Type 0} where
  -- Every session but the kept one stands under its uuid, which is not that of the kept one.
  abbrev pub Others : Bytes → Map Bytes (Session W) → Type 0
  Others kept = All (λ (e : Bytes × Session W). (e.0 ≡ e.1.uuid) × (bytes_beq e.0 kept ≡ false))

  All-get :
      (kept : Bytes) (m : Map Bytes (Session W)) (i : ℕ) (k : Bytes) (s : Session W)
      → Others kept m
      → get_elem? m i ≡ some (k, s)
      → (k ≡ s.uuid) × (bytes_beq k kept ≡ false)
  All-get kept [] i k s h e = cc
  All-get kept ((j, v) ∷ m) zero k s h e =
      let key : j ≡ k = cc in
      let value : v ≡ s = cc in
      (
        sym key ∙ h.0.0 ∙ ap (λ (w : Session W). w.uuid) value,
        ap (λ c. bytes_beq c kept) (sym key) ∙ h.0.1,
      )
  All-get kept ((j, v) ∷ m) (suc i) k s h e = All-get kept m i k s h.1 e

  Others-erase :
      (kept u : Bytes) (m : Map Bytes (Session W)) → Others kept m → Others kept (StdMap.erase u m)
  unfolding StdMap.erase
  Others-erase kept u [] h = h
  Others-erase kept u ((j, v) ∷ m) h = elim (Bool-cases (bytes_beq j u)) [
    | inl same ↦ rw same (Others-erase kept u m h.1)
    | inr other ↦ rw other (h.0, Others-erase kept u m h.1)
  ]

  -- The table behind a removal, when the first session is another one
  delete-behind :
      (kept : Bytes) (first : Session W) (rest : Map Bytes (Session W)) (k : Bytes) (s : Session W)
      (t : Table W)
      → t.hv.sessions ≡ (kept, first) ∷ rest
      → k ≡ s.uuid
      → bytes_beq k kept ≡ false
      → is_some (StdMap.find k rest) ≡ true
      → (session_delete s.uuid t).hv.sessions ≡ (kept, first) ∷ StdMap.erase k rest
  unfolding StdMap.erase StdMap.find
  delete-behind kept first rest k s t h key other there =
      let flip : bytes_beq kept k ≡ false =
        ground (arith, other, bytes_beq_iff k kept, bytes_beq_iff kept k) in
      let found : is_some (StdMap.find s.uuid t.hv.sessions) ≡ true =
        ap (λ u. is_some (StdMap.find u t.hv.sessions)) (sym key)
        ∙ ap (λ m. is_some (StdMap.find k m)) h
        ∙ ground (arith, flip, there) in
      sessions-session_delete s.uuid t found
      ∙ ap (λ u. StdMap.erase u t.hv.sessions) (sym key)
      ∙ ap (StdMap.erase k) h
      ∙ ground (arith, flip)

  clean_sessions-first_kept :
      (fuel : ℕ) (vms : Map Bytes Bytes) (i : ℕ) (t : Table W) (kept : Bytes) (first : Session W)
      (rest : Map Bytes (Session W))
      → t.hv.sessions ≡ (kept, first) ∷ rest
      → Others kept rest
      → (length rest - i) + rounds (length rest) ≤ fuel
      → (t' : Table W) × (clean_sessions fuel vms (suc i) t ≡ some t')
        × (StdMap.find kept t'.hv.sessions ≡ some first)
  unfolding StdMap.find
  clean_sessions-first_kept zero vms i t kept first rest h others enough =
      absurd (omega (arith, enough, rounds_pos (length rest)))
  clean_sessions-first_kept (suc fuel) vms i t kept first rest h others enough =
      let here : get_elem? t.hv.sessions (suc i) ≡ get_elem? rest i =
        ap (λ (m : Map Bytes (Session W)). get_elem? m (suc i)) h in
      elim (Option-cases (get_elem? rest i)) [
        | inl past ↦ (
          t,
          clean-ends fuel vms (suc i) t (here ∙ past),
          ap (StdMap.find kept) h ∙ ground (arith, (bytes_beq_iff kept kept).1 refl),
        )
        | inr ((k, s), at) ↦
            let (key, other) = All-get kept rest i k s others at in
            elim (Bool-cases (is_registered vms s)) [
              | inl known ↦
                  let (t', done, found) =
                    clean_sessions-first_kept fuel vms (suc i) t kept first rest h others
                      (omega (arith, enough, get_elem?-lt rest i at)) in
                  (
                    t',
                    clean-stays fuel vms (suc i) t k s (here ∙ at) known
                        ∙ ap (λ j. clean_sessions fuel vms j t) (omega arith)
                        ∙ done,
                    found,
                  )
              | inr gone ↦
                  let (shorter, there) = length-erase rest i k s at in
                  let behind = delete-behind kept first rest k s t h key other there in
                  let (t', done, found) =
                    clean_sessions-first_kept fuel vms 0 (session_delete s.uuid t) kept first
                      (StdMap.erase k rest) behind (Others-erase kept k rest others)
                      (omega (
                        arith,
                        enough,
                        get_elem?-lt rest i at,
                        rounds_step (length (StdMap.erase k rest)) (length rest) shorter,
                      )) in
                  (
                    t',
                    clean-gone fuel vms (suc i) t k s (here ∙ at) gone (ap is_nil behind) ∙ done,
                    found,
                  )
            ]
      ]

  -- When the sessions each stand under their uuid, and the hypervisor does not know the machine of the
  -- first one, the clean-up of loadSessions comes to an end, and the second session is still in the
  -- table, whether or not the hypervisor knows its machine.
  pub clean_sessions-second_kept :
      (fuel : ℕ) (vms : Map Bytes Bytes) (t : Table W) (gone kept : Bytes)
      (first second : Session W) (rest : Map Bytes (Session W))
      → t.hv.sessions ≡ (gone, first) ∷ (kept, second) ∷ rest
      → gone ≡ first.uuid
      → bytes_beq gone kept ≡ false
      → Others kept rest
      → is_registered vms first ≡ false
      → rounds (length rest + 1) ≤ fuel
      → (t' : Table W) × (clean_sessions fuel vms 0 t ≡ some t')
        × (StdMap.find kept t'.hv.sessions ≡ some second)
  unfolding StdMap.find StdMap.erase
  clean_sessions-second_kept zero vms t gone kept first second rest h key other others lost enough =
      absurd (omega (arith, enough, rounds_pos (length rest + 1)))
  clean_sessions-second_kept (suc fuel) vms t gone kept first second rest h key other others lost
        enough =
      let flip : bytes_beq kept gone ≡ false =
        ground (arith, other, bytes_beq_iff gone kept, bytes_beq_iff kept gone) in
      let same : bytes_beq gone gone ≡ true = (bytes_beq_iff gone gone).1 refl in
      let found : is_some (StdMap.find first.uuid t.hv.sessions) ≡ true =
        ap (λ u. is_some (StdMap.find u t.hv.sessions)) (sym key)
        ∙ ap (λ m. is_some (StdMap.find gone m)) h
        ∙ ground (arith, same) in
      let left : (session_delete first.uuid t).hv.sessions
          ≡ (kept, second) ∷ StdMap.erase gone rest =
        sessions-session_delete first.uuid t found
        ∙ ap (λ u. StdMap.erase u t.hv.sessions) (sym key)
        ∙ ap (StdMap.erase gone) h
        ∙ ground (arith, same, flip) in
      let (t', done, there) =
        clean_sessions-first_kept fuel vms 0 (session_delete first.uuid t) kept second
          (StdMap.erase gone rest) left (Others-erase kept gone rest others)
          (omega (
            arith,
            enough,
            length-erase_le gone rest,
            rounds_step (length (StdMap.erase gone rest)) (length rest + 1)
                (omega (arith, length-erase_le gone rest)),
          )) in
      (
        t',
        clean-gone fuel vms 0 t gone first (ap (λ (m : Map Bytes (Session W)). get_elem? m 0) h)
              lost (ap is_nil left)
            ∙ done,
        there,
      )
