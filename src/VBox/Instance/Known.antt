-- ===== src/VBox/Instance/Known.antt =====
-- The sessions that the clean-up of src/Hypervisor/Virtualbox/VBoxInstance.cpp may remove.
use libcernvm.Prelude.{
  ℕ, zero, suc, ◌+◌, ◌-◌, ◌≤◌, ◌≡◌, sym, ap, ◌∙◌, inl, inr, true, false, [], ◌∷◌, none, some, arith,
  is_nil, length, get_elem?, get_elem?-lt, Bool-cases, Option-cases,
}
use libcernvm.Prelude.Keys.{Bytes, bytes_key, bytes_beq, bytes_beq_iff}
use libcernvm.Prelude.Member.{All}
use libcernvm.StdMap
use libcernvm.StdMap.{Map, is_some, Unique, Unique-erase, find-erase}
use libcernvm.Hypervisor.Sessions.{Session}
use libcernvm.VBox.Instance.{Table, session_delete, is_registered, clean_sessions}
use libcernvm.VBox.Instance.Removal.{
  rounds, rounds_step, rounds_pos, length-erase, sessions-session_delete, clean-gone, clean-stays,
  clean-ends,
}

module _ {W : Type 0} where
  -- Every session stands under its uuid.
  abbrev pub Filed : Map Bytes (Session W) → Type 0
  Filed = All (λ (e : Bytes × Session W). e.0 ≡ e.1.uuid)

  -- Every session that the hypervisor knows in a table stands in another one.
  abbrev pub KeepsKnown : Map Bytes Bytes → Map Bytes (Session W) → Map Bytes (Session W) → Type 0
  KeepsKnown vms m n =
      (k : Bytes) (s : Session W)
      → StdMap.find k m ≡ some s
      → is_registered vms s ≡ true
      → StdMap.find k n ≡ some s

  Filed-get :
      (m : Map Bytes (Session W)) (i : ℕ) (k : Bytes) (s : Session W)
      → Filed m
      → get_elem? m i ≡ some (k, s)
      → k ≡ s.uuid
  Filed-get [] i k s h e = cc
  Filed-get ((j, v) ∷ m) zero k s h e =
      let key : j ≡ k = cc in
      let value : v ≡ s = cc in sym key ∙ h.0 ∙ ap (λ (w : Session W). w.uuid) value
  Filed-get ((j, v) ∷ m) (suc i) k s h e = Filed-get m i k s h.1 e

  pub Filed-erase : (u : Bytes) (m : Map Bytes (Session W)) → Filed m → Filed (StdMap.erase u m)
  unfolding StdMap.erase
  Filed-erase u [] h = h
  Filed-erase u ((j, v) ∷ m) h = elim (Bool-cases (bytes_beq j u)) [
    | inl same ↦ rw same (Filed-erase u m h.1)
    | inr other ↦ rw other (h.0, Filed-erase u m h.1)
  ]

  find-get :
      (m : Map Bytes (Session W)) (i : ℕ) (k : Bytes) (s : Session W)
      → Unique m
      → get_elem? m i ≡ some (k, s)
      → StdMap.find k m ≡ some s
  unfolding StdMap.find
  find-get [] i k s h e = cc
  find-get ((j, v) ∷ m) zero k s h e =
      let key : j ≡ k = cc in
      let value : v ≡ s = cc in ground (arith, (bytes_beq_iff j k).1 key, value)
  find-get ((j, v) ∷ m) (suc i) k s h e =
      let there = find-get m i k s h.1 e in
      elim (Bool-cases (bytes_beq j k)) [
        | inl same ↦
            let key : j ≡ k = (bytes_beq_iff j k).0 same in
            let nowhere : StdMap.find k m ≡ none = ap (λ c. StdMap.find c m) (sym key) ∙ h.0 in
            absurd (ground (arith, nowhere, there))
        | inr other ↦ ground (arith, other, there)
      ]

  -- To remove a session that the hypervisor does not know keeps those that it knows.
  erase-KeepsKnown :
      (vms : Map Bytes Bytes) (m : Map Bytes (Session W)) (i : ℕ) (k : Bytes) (s : Session W)
      → Unique m
      → get_elem? m i ≡ some (k, s)
      → is_registered vms s ≡ false
      → KeepsKnown vms m (StdMap.erase k m)
  erase-KeepsKnown vms m i k s unique at gone k' s' found known =
      let there = find-get m i k s unique at in
      elim (Bool-cases (bytes_beq k k')) [
        | inl same ↦
            let key : k ≡ k' = (bytes_beq_iff k k').0 same in
            let value : some s ≡ some s' = sym there ∙ ap (λ c. StdMap.find c m) key ∙ found in
            absurd (ground (arith, value, gone, known))
        | inr other ↦ find-erase k' k m ∙ ground (arith, other, found)
      ]

  clean-last :
      (fuel : ℕ) (vms : Map Bytes Bytes) (i : ℕ) (t : Table W) (k : Bytes) (s : Session W)
      → get_elem? t.hv.sessions i ≡ some (k, s)
      → is_registered vms s ≡ false
      → is_nil (session_delete s.uuid t).hv.sessions ≡ true
      → clean_sessions (suc fuel) vms i t ≡ some (session_delete s.uuid t)
  unfolding clean_sessions
  clean-last fuel vms i t k s e gone empty = ground (arith, e, gone, empty)

  -- From every place of its iterator, and with that many rounds, the clean-up of loadSessions comes to an
  -- end, on a table where the sessions stand under their uuids, each once; and every session whose machine
  -- the hypervisor knows stays in the table.
  pub clean_sessions-KeepsKnown :
      (fuel : ℕ) (vms : Map Bytes Bytes) (i : ℕ) (t : Table W)
      → Filed t.hv.sessions
      → Unique t.hv.sessions
      → (length t.hv.sessions - i) + rounds (length t.hv.sessions) ≤ fuel
      → (t' : Table W) × (clean_sessions fuel vms i t ≡ some t')
        × KeepsKnown vms t.hv.sessions t'.hv.sessions
  clean_sessions-KeepsKnown zero vms i t filed unique enough =
      absurd (omega (arith, enough, rounds_pos (length t.hv.sessions)))
  clean_sessions-KeepsKnown (suc fuel) vms i t filed unique enough =
      let m = t.hv.sessions in
      elim (Option-cases (get_elem? m i)) [
        | inl past ↦ (t, clean-ends fuel vms i t past, λ k s found known. found)
        | inr ((k, s), at) ↦
            let inside = get_elem?-lt m i at in
            elim (Bool-cases (is_registered vms s)) [
              | inl known ↦
                  let (t', done, keeps) =
                    clean_sessions-KeepsKnown fuel vms (i + 1) t filed unique
                      (omega (arith, enough, inside)) in
                  (t', clean-stays fuel vms i t k s at known ∙ done, keeps)
              | inr gone ↦
                  let t2 = session_delete s.uuid t in
                  let key = Filed-get m i k s filed at in
                  let (shorter, there) = length-erase m i k s at in
                  let left : t2.hv.sessions ≡ StdMap.erase k m =
                    sessions-session_delete s.uuid t
                      (ap (λ u. is_some (StdMap.find u m)) (sym key) ∙ there)
                    ∙ ap (λ u. StdMap.erase u m) (sym key) in
                  let kept : KeepsKnown vms m t2.hv.sessions = λ k' s' found known.
                    ap (StdMap.find k') left
                    ∙ erase-KeepsKnown vms m i k s unique at gone k' s' found known in
                  elim (Bool-cases (is_nil t2.hv.sessions)) [
                    | inl empty ↦ (t2, clean-last fuel vms i t k s at gone empty, kept)
                    | inr more ↦
                        let filed' : Filed t2.hv.sessions = rw left (Filed-erase k m filed) in
                        let unique' : Unique t2.hv.sessions = rw left (Unique-erase k m unique) in
                        let size : length t2.hv.sessions ≡ length (StdMap.erase k m) =
                          ap length left in
                        let (t', done, keeps) =
                          clean_sessions-KeepsKnown fuel vms 1 t2 filed' unique' (
                            omega (
                              arith,
                              enough,
                              inside,
                              shorter,
                              size,
                              rounds_step (length t2.hv.sessions) (length m)
                                  (omega (arith, shorter, size)),
                            )) in
                        (
                          t',
                          clean-gone fuel vms i t k s at gone more ∙ done,
                          λ k' s' found known. keeps k' s' (kept k' s' found known) known,
                        )
                  ]
            ]
      ]
