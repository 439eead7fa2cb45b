-- ===== src/Keystore/Updates.antt =====
-- When updateAuthorizedKeystore of src/DomainKeystore.cpp loads the keys of the domains.
use libcernvm.Prelude.{
  ℕ, ◌+◌, ◌<◌, ◌≡◌, refl, sym, ap, ◌∙◌, Bool, true, false, ◌&&◌, some, inl, inr, ◌⊎◌, arith, ltb,
  ◌==◌, ==_iff, Bool-cases, Option-cases,
}
use mathlib.Core.Path.{subst}
use libcernvm.Prelude.Keys.{Bytes}
use libcernvm.Hypervisor.Codes.{hve_ok}
use libcernvm.Keystore.{
  Keystore, KeyFiles, Provider, store_validity, frequent_thresshold, has_content, has_signature,
  last_modified, load_keys, validate_signature, needs_reload, reload, load_store,
  update_authorized_keystore,
}

module _ (verify : Bytes → Bytes → Bool) where
  -- The files as they are loaded have a valid signature, or they were not downloaded: they are there, are
  -- less than a day old, and were never loaded or have not changed since.
  unfoldable pub Trusted : ℕ → Keystore → KeyFiles → KeyFiles → Type 0
  Trusted curr_time k before after =
      (validate_signature verify after ≡ true)
      ⊎ ((after ≡ before)
          × (has_content before.store ≡ true)
          × (has_signature before.signature ≡ true)
          × (curr_time < last_modified before + store_validity)
          × ((k.keystore_timestamp ≡ 0) ⊎ (k.keystore_timestamp ≡ last_modified before)))

  needs_reload-Trusted :
      (curr_time : ℕ) (k : Keystore) (files : KeyFiles)
      → needs_reload verify curr_time k files ≡ false
      → Trusted curr_time k files files
  unfolding Trusted needs_reload
  needs_reload-Trusted curr_time k files h = elim (Bool-cases (validate_signature verify files)) [
    | inl signed ↦ inl signed
    | inr unsigned ↦ inr (
      refl,
      ground (arith, h),
      ground (arith, h),
      ground (arith, h),
      elim (Bool-cases (k.keystore_timestamp == 0)) [
        | inl never ↦ inl (ground (arith, never))
        | inr before ↦ inr (ground (arith, h, before, unsigned))
      ],
    )
  ]

  reload-validated :
      (provider : Provider) (files : KeyFiles)
      → (reload verify provider files).0 ≡ hve_ok
      → validate_signature verify (reload verify provider files).1 ≡ true
  unfolding reload
  reload-validated provider files h = elim (Bool-cases (provider.store_answer == hve_ok)) [
    | inr failed ↦ absurd (ground (arith, h, failed))
    | inl stored ↦ elim (Bool-cases (provider.signature_answer == hve_ok)) [
      | inr failed ↦ absurd (ground (arith, h, stored, failed))
      | inl sent ↦ ground (arith, h, stored, sent)
    ]
  ]

  load_store_result :
      (k k' : Keystore) (files files' : KeyFiles)
      → load_store verify k files ≡ some (hve_ok, k', files')
      → (files' ≡ files)
        × (load_keys k.domain_keys files ≡ some k'.domain_keys)
        × (k'.valid ≡ true)
        × (k'.last_update_timestamp ≡ k.last_update_timestamp)
  unfolding load_store
  load_store_result k k' files files' h = elim (Option-cases (load_keys k.domain_keys files)) [
    | inl fault ↦ absurd (ground (arith, h, fault))
    | inr (keys, loaded) ↦ (
      ground (arith, h, loaded),
      ground (arith, h, loaded),
      ground (arith, h, loaded),
      ground (arith, h, loaded),
    )
  ]

  update-loads :
      (provider : Provider) (curr_time : ℕ) (k k' : Keystore) (files files' : KeyFiles)
      → update_authorized_keystore verify provider curr_time k files ≡ some (hve_ok, k', files')
      → ((k.valid ≡ true) × (k' ≡ k) × (files' ≡ files))
        ⊎ ((load_store verify (record k { valid = false }) files' ≡ some (hve_ok, k', files'))
            × Trusted curr_time k files files')
  unfolding update_authorized_keystore Trusted
  update-loads provider curr_time k k' files files' h =
      let k0 = record k { valid = false } in
      let res = (reload verify provider files).0 in
      let new = (reload verify provider files).1 in
      elim (Bool-cases (k.valid && ltb k.last_update_timestamp (curr_time + frequent_thresshold))) [
        | inl frequent ↦
            inl (ground (arith, frequent), ground (arith, h, frequent), ground (arith, h, frequent))
        | inr due ↦ elim (Bool-cases (needs_reload verify curr_time k files)) [
          | inr kept ↦
              let e : load_store verify k0 files ≡ some (hve_ok, k', files') =
                ground (arith, h, due, kept) in
              let same = (load_store_result k0 k' files files' e).0 in
              inr (
                ap (load_store verify k0) same ∙ e,
                subst (Trusted curr_time k files) (sym same)
                    (needs_reload-Trusted curr_time k files kept),
              )
          | inl stale ↦ elim (Bool-cases (res == hve_ok)) [
            | inl went ↦
                let e : load_store verify k0 new ≡ some (hve_ok, k', files') =
                  ground (arith, h, due, stale, went) in
                let same = (load_store_result k0 k' new files' e).0 in
                inr (
                  ap (load_store verify k0) same ∙ e,
                  subst (Trusted curr_time k files) (sym same)
                      (inl (reload-validated provider files ((==_iff res hve_ok).0 went))),
                )
            | inr failed ↦ absurd (ground (arith, h, due, stale, failed))
          ]
        ]
      ]

  -- When updateAuthorizedKeystore answers HVE_OK: the keystore was valid and nothing has changed; or its
  -- keys are those of the file, and the files have a valid signature, or were not downloaded but were there
  -- before with some content, are less than a day old, and were never loaded or have not changed since.
  pub update-Trusted :
      (provider : Provider) (curr_time : ℕ) (k k' : Keystore) (files files' : KeyFiles)
      → update_authorized_keystore verify provider curr_time k files ≡ some (hve_ok, k', files')
      → ((k.valid ≡ true) × (k' ≡ k) × (files' ≡ files))
        ⊎ ((load_keys k.domain_keys files' ≡ some k'.domain_keys)
            × Trusted curr_time k files files')
  update-Trusted provider curr_time k k' files files' h =
      elim (update-loads provider curr_time k k' files files' h) [
        | inl same ↦ inl same
        | inr (loads, trusted) ↦
            inr ((load_store_result (record k { valid = false }) k' files' files' loads).1, trusted)
      ]

  -- Once an update of a keystore whose last update has no time has answered HVE_OK, every later update
  -- answers HVE_OK and leaves the keystore as it is, whatever the files and the provider hold by then.
  pub update-once :
      (provider provider' : Provider) (curr_time later : ℕ) (k k' : Keystore)
      (files files' now : KeyFiles)
      → k.last_update_timestamp ≡ 0
      → update_authorized_keystore verify provider curr_time k files ≡ some (hve_ok, k', files')
      → update_authorized_keystore verify provider' later k' now ≡ some (hve_ok, k', now)
  unfolding update_authorized_keystore
  update-once provider provider' curr_time later k k' files files' now zero_time h =
      elim (update-loads provider curr_time k k' files files' h) [
        | inl (valid, same, _) ↦
            let valid' : k'.valid ≡ true = ap (λ (s : Keystore). s.valid) same ∙ valid in
            let zero' : k'.last_update_timestamp ≡ 0 =
              ap (λ (s : Keystore). s.last_update_timestamp) same ∙ zero_time in
            ground (arith, valid', zero')
        | inr (loads, trusted) ↦
            let (_, _, valid', kept) =
              load_store_result (record k { valid = false }) k' files' files' loads in
            ground (arith, valid', kept, zero_time)
      ]
