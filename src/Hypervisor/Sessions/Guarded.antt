-- ===== src/Hypervisor/Sessions/Guarded.antt =====
-- Who gets a session from sessionOpen of src/Hypervisor.cpp.
use libcernvm.Prelude.{
  ◌≡◌, refl, ap, ◌∙◌, true, false, not, ◌||◌, [], ◌∷◌, ◌++◌, Option, none, some, inl, inr, ◌⊎◌,
  arith, is_nil, Bool-cases, Option-cases,
}
use libcernvm.Prelude.Keys.{Bytes, bytes_key, bytes_beq, bytes_beq_iff}
use libcernvm.StdMap
use libcernvm.StdMap.{Map}
use libcernvm.Parameters.{Entries, Group, Store, get, or_default, set, unlock}
use libcernvm.Parameters.Groups.{set-find, unlock-entries, set-prefix}
use libcernvm.Utilities.Clean.{is_sanitized, alnum_chars}
use libcernvm.Hypervisor.Sessions.{
  Session, Instance, text_of, session_by_name, allocate_session, populate, found_session,
  session_open,
}
use libcernvm.Hypervisor.Sessions.Defaults.{name_key, secret_key, crypto_salt}

module _ {W : Type 0} (flush : Entries → W → W) (sha256 : Bytes → Bytes) where
  -- The secret behind a value that is set, and then an unlock.
  secret-set :
      (g : Group) (value : Bytes) (s : Store W)
      → (let (s', g') = set flush g secret_key value s in
          let (s'', g'') = unlock flush g' s' in get g'' s''.entries secret_key [] false)
        ≡ value
  unfolding get unlock
  secret-set g value s =
      let r = set flush g secret_key value s in
      let key = g.prefix ++ secret_key in
      ap (λ m. or_default (StdMap.find (r.1.prefix ++ secret_key) m) [])
        (unlock-entries flush r.1 r.0)
      ∙ ap (λ p. or_default (StdMap.find (p ++ secret_key) r.0.entries) [])
          (set-prefix flush g secret_key value s)
      ∙ ground (arith, set-find flush g secret_key value key s, bytes_beq_iff key key)

  text_of-populate :
      (g : Group) (parameters : Entries) (key_hash : Bytes) (sess : Session W)
      → text_of (populate flush sha256 g parameters key_hash sess) secret_key ≡ key_hash
  unfolding text_of populate
  text_of-populate g parameters key_hash sess = secret-set _ key_hash _

-- The session that was given out, in the table before and the table after: its name was checked, a
-- session that was there before had the secret, and the table changes in this session alone.
pub record IsGranted {W : Type 0} (name key_hash : Bytes) (id : Bytes) (hv hv' : Instance W)
    : Type 0 where
  pub named : is_nil name ≡ false
  pub sanitized : is_sanitized name alnum_chars ≡ true
  pub entitled :
      (session_by_name name hv.sessions ≡ none)
      ⊎ ((sess : Session W) × (session_by_name name hv.sessions ≡ some (id, sess))
          × (text_of sess secret_key ≡ key_hash))
  pub secured :
      (sess : Session W) × (StdMap.find id hv'.sessions ≡ some sess)
      × (text_of sess secret_key ≡ key_hash)
  pub others :
      (j : Bytes) → bytes_beq id j ≡ false → StdMap.find j hv'.sessions ≡ StdMap.find j hv.sessions
  pub opened : hv'.open_sessions ≡ hv.open_sessions ++ id ∷ []

module _ {W : Type 0} (flush : Entries → W → W) (sha256 : Bytes → Bytes) where
  -- The table with the session of sessionOpen in its place.
  placed : Bytes → Session W → Instance W → Instance W
  placed id sess hv = record {
    sessions = StdMap.assign id sess hv.sessions;
    open_sessions = hv.open_sessions ++ id ∷ [];
  }

  IsGranted-found :
      (name key_hash id : Bytes) (old new : Session W) (hv : Instance W)
      → is_nil name ≡ false
      → is_sanitized name alnum_chars ≡ true
      → session_by_name name hv.sessions ≡ some (id, old)
      → text_of old secret_key ≡ key_hash
      → text_of new secret_key ≡ key_hash
      → IsGranted name key_hash id hv (placed id new hv)
  unfolding placed
  IsGranted-found name key_hash id old new hv n c e o k = record {
    named = n;
    sanitized = c;
    entitled = inr (old, e, o);
    secured =
        (new, ground (arith, StdMap.find-assign id id new hv.sessions, bytes_beq_iff id id), k);
    others = λ j apart. ground (arith, StdMap.find-assign j id new hv.sessions, apart);
    opened = refl;
  }

  IsGranted-new :
      (name key_hash id : Bytes) (fresh new : Session W) (hv : Instance W)
      → is_nil name ≡ false
      → is_sanitized name alnum_chars ≡ true
      → session_by_name name hv.sessions ≡ none
      → text_of new secret_key ≡ key_hash
      → IsGranted name key_hash id hv
          (placed id new (record hv { sessions = StdMap.assign id fresh hv.sessions }))
  unfolding placed
  IsGranted-new name key_hash id fresh new hv n c e k =
      let m = StdMap.assign id fresh hv.sessions in
      record {
        named = n;
        sanitized = c;
        entitled = inl e;
        secured = (new, ground (arith, StdMap.find-assign id id new m, bytes_beq_iff id id), k);
        others = λ j apart. ground (
          arith,
          StdMap.find-assign j id new m,
          StdMap.find-assign j id fresh hv.sessions,
          apart,
        );
        opened = refl;
      }

  -- What sessionOpen answers.
  unfoldable pub Guarded : Bytes → Bytes → Instance W → Option Bytes × Instance W → Type 0
  Guarded name key_hash hv (answer, hv') =
      ((answer ≡ none) × (hv' ≡ hv))
      ⊎ ((id : Bytes) × (answer ≡ some id) × IsGranted name key_hash id hv hv')

  -- sessionOpen gives out no session and changes nothing, or the session that it gives out is granted
  -- as above: the name is not empty and of the safe characters only, no session had the name or the
  -- first one with the name had the salted sum of the key for its secret, the session has that sum for
  -- its secret afterwards, no other session changes, and it is added to the open ones.
  pub session_open-Guarded :
      (g : Group) (parameters : Entries) (guid : Bytes) (config : Store W) (hv : Instance W)
      → Guarded
          (get g parameters name_key [] false)
          (sha256 (crypto_salt ++ get g parameters secret_key [] false))
          hv
          (session_open flush sha256 g parameters guid config hv)
  unfolding Guarded session_open found_session placed allocate_session
  session_open-Guarded g parameters guid config hv =
      let name = get g parameters name_key [] false in
      let key = get g parameters secret_key [] false in
      let key_hash = sha256 (crypto_salt ++ key) in
      let blocked = is_nil name || is_nil key || not (is_sanitized name alnum_chars) in
      let new = populate flush sha256 g parameters key_hash in
      elim (Bool-cases blocked) [
        | inl refused ↦ rw (refused, session_open) (inl (refl, refl))
        | inr passed ↦
            let named : is_nil name ≡ false = ground (arith, passed) in
            let clean : is_sanitized name alnum_chars ≡ true = ground (arith, passed) in
            elim (Option-cases (session_by_name name hv.sessions)) [
              | inl unknown ↦
                  let fresh = (allocate_session flush sha256 guid config hv).0 in
                  rw (passed, unknown, session_open)
                    (inr (
                      guid,
                      refl,
                      IsGranted-new name key_hash guid fresh (new fresh) hv named clean unknown
                          (text_of-populate flush sha256 g parameters key_hash fresh),
                    ))
              | inr ((id, sess), known) ↦
                  elim (Bool-cases (bytes_beq (text_of sess secret_key) key_hash)) [
                    | inr wrong ↦ rw (passed, known, wrong, session_open) (inl (refl, refl))
                    | inl right ↦
                        rw (passed, known, right, session_open)
                          (inr (
                            id,
                            refl,
                            IsGranted-found name key_hash id sess (new sess) hv named clean known
                                ((bytes_beq_iff (text_of sess secret_key) key_hash).0 right)
                                (text_of-populate flush sha256 g parameters key_hash sess),
                          ))
                  ]
            ]
      ]
