-- ===== src/Parameters/Batch.antt =====
-- Writes between `lock` and `unlock`.
use libcernvm.Prelude.{
  ℕ, zero, suc, ◌≡◌, refl, ap, ◌∙◌, Bool, true, false, List, [], ◌∷◌, ◌++◌, arith, if◌then◌else◌,
  is_nil,
}
use libcernvm.Prelude.Keys.{Bytes}
use libcernvm.Parameters.{
  Entries, Group, Store, put_on_map, commit_changes, written, set, lock, unlock,
}

-- A run of `set` calls, and what it makes of the map.
pub put_all : Bytes → List (Bytes × Bytes) → Entries → Entries
put_all prefix [] m = m
put_all prefix ((name, value) ∷ ws) m = put_all prefix ws (put_on_map (prefix ++ name) value m)

module _ {W : Type 0} (flush : Entries → W → W) where
  pub set_all : Group → List (Bytes × Bytes) → Store W → Store W × Group
  set_all g [] s = (s, g)
  set_all g ((name, value) ∷ ws) s = let (s', g') = set flush g name value s in set_all g' ws s'

  pub commit_changes-flush :
      (depth : ℕ) (s : Store W)
      → commit_changes flush depth s ≡ record s { world = flush s.entries s.world }
  unfolding commit_changes
  commit_changes-flush zero s = refl
  commit_changes-flush (suc depth) s = commit_changes-flush depth s

  set_locked :
      (g : Group) (name value : Bytes) (s : Store W)
      → g.locked ≡ true
      → set flush g name value s ≡ (
        record s { entries = put_on_map (g.prefix ++ name) value s.entries },
        record g { changed = true },
      )
  unfolding set written
  set_locked g name value s h = ground arith

  always : (b : Bool) → (if b then true else true) ≡ true
  always b = ground arith

  set_all_locked :
      (ws : List (Bytes × Bytes)) (g : Group) (s : Store W)
      → g.locked ≡ true
      → set_all g ws s ≡ (
        record s { entries = put_all g.prefix ws s.entries },
        record g { changed = (if is_nil ws then g.changed else true) },
      )
  unfolding set_all put_all
  set_all_locked [] g s h = refl
  set_all_locked ((name, value) ∷ ws) g s h =
      let s' : Store W = record s { entries = put_on_map (g.prefix ++ name) value s.entries } in
      let g' : Group = record g { changed = true } in
      rw (set_locked g name value s h) (
        set_all_locked ws g' s' h
        ∙ ap
            (λ b. (record s { entries = put_all g.prefix ws s'.entries }, record g { changed = b }))
            (always (is_nil ws)))

  -- Writes between `lock` and `unlock` are all in the map in the end, and the root commits once,
  -- with the final map; it does not commit at all when nothing was written.
  pub unlock-set_all :
      (g : Group) (ws : List (Bytes × Bytes)) (s : Store W)
      → let (s1, g1) = set_all (lock g) ws s in
        let (s2, g2) = unlock flush g1 s1 in
        (s2.entries ≡ put_all g.prefix ws s.entries)
        × (s2.world
            ≡ (if is_nil ws then s.world else flush (put_all g.prefix ws s.entries) s.world))
        × (s1.world ≡ s.world)
        × (g2.locked ≡ false)
  unfolding unlock lock set_all put_all
  unlock-set_all g [] s = (refl, refl, refl, refl)
  unlock-set_all g (w ∷ ws) s =
      rw (set_all_locked (w ∷ ws) (lock g) s refl)
        (ap entries_of done, ap world_of done, refl, refl)
    where
      final : Store W
      final = record s { entries = put_all g.prefix (w ∷ ws) s.entries }

      done :
          commit_changes flush g.depth final
          ≡ record final { world = flush final.entries final.world }
      done = commit_changes-flush g.depth final

      entries_of : Store W → Entries
      entries_of t = t.entries

      world_of : Store W → W
      world_of t = t.world
