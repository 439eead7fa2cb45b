-- ===== src/Parameters/Groups.antt =====
-- What a group reads after each operation.
use libcernvm.Prelude.{
  ℕ, zero, suc, ◌≡◌, refl, ap, ◌∙◌, Bool, false, not, ◌&&◌, [], ◌∷◌, ◌++◌, none, some, arith,
  if◌then◌else◌, append_assoc,
}
use libcernvm.Prelude.Keys.{Bytes, bytes_key, bytes_beq_iff, ◌==◌}
use libcernvm.Prelude.Member.{mem, mem-append}
use libcernvm.StdMap
use libcernvm.StdMap.{Map, is_some, or_some}
use libcernvm.Parameters.{
  Entries, Group, Store, separator, own_name, put_on_map, get, get_bool, bool_of_text, contains,
  subgroup, or_default, safe_name, commit_changes, written, set, set_bool, set_default, erase,
  clear, unlock,
}
use libcernvm.Parameters.Names.{find-put_on_map, strip_prefix-append, unless_own, find_cleared}

module _ {W : Type 0} (flush : Entries → W → W) where
  commit_changes-entries :
      (depth : ℕ) (s : Store W) → (commit_changes flush depth s).entries ≡ s.entries
  unfolding commit_changes
  commit_changes-entries zero s = refl
  commit_changes-entries (suc depth) s = commit_changes-entries depth s

  pub written-entries : (g : Group) (s : Store W) → (written flush g s).0.entries ≡ s.entries
  unfolding written
  written-entries g s = ground (arith, commit_changes-entries g.depth s)

  pub set-find :
      (g : Group) (name value j : Bytes) (s : Store W)
      → StdMap.find j (set flush g name value s).0.entries
        ≡ (if (g.prefix ++ name) == j then some value else StdMap.find j s.entries)
  unfolding set
  set-find g name value j s =
      ap (StdMap.find j)
        (written-entries g (record s { entries = put_on_map (g.prefix ++ name) value s.entries }))
      ∙ find-put_on_map j (g.prefix ++ name) value s.entries

  pub unlock-entries : (g : Group) (s : Store W) → (unlock flush g s).0.entries ≡ s.entries
  unfolding unlock
  unlock-entries g s = ground (arith, commit_changes-entries g.depth s)

  pub set-prefix :
      (g : Group) (name value : Bytes) (s : Store W)
      → (set flush g name value s).1.prefix ≡ g.prefix
  unfolding set written
  set-prefix g name value s = ground arith

  -- After a `set`, by whatever group and locked or not, each group reads the new value where its
  -- full name is the one that was set, and what it read before everywhere else.
  pub get-set :
      (g other : Group) (name value k default : Bytes) (s : Store W)
      → get other (set flush g name value s).0.entries k default false ≡ (
          if (g.prefix ++ name) == (other.prefix ++ k)
          then value
          else get other s.entries k default false)
  unfolding get
  get-set g other name value k default s =
      ground (arith, set-find g name value (other.prefix ++ k) s)

  -- After an `erase` the name is gone, and every other full name reads as before.
  pub get-erase :
      (g other : Group) (name k default : Bytes) (s : Store W)
      → (contains g (erase g name s).entries name false ≡ false)
        × (get other (erase g name s).entries k default false ≡ (
            if (g.prefix ++ name) == (other.prefix ++ k)
            then default
            else get other s.entries k default false))
  unfolding get contains erase
  get-erase g other name k default s = (
    ground (
      arith,
      StdMap.find-erase (g.prefix ++ name) (g.prefix ++ name) s.entries,
      bytes_beq_iff (g.prefix ++ name) (g.prefix ++ name),
    ),
    ground (arith, StdMap.find-erase (other.prefix ++ k) (g.prefix ++ name) s.entries),
  )

  -- `setDefault` gives a value to a name that has none, and changes nothing else.
  pub get-set_default :
      (g other : Group) (name value k default : Bytes) (s : Store W)
      → get other (set_default g name value s).entries k default false ≡ (
          if not (contains g s.entries name false) && ((g.prefix ++ name) == (other.prefix ++ k))
          then value
          else get other s.entries k default false)
  unfolding get contains set_default
  get-set_default g other name value k default s = ground (
    arith,
    StdMap.find-insert (other.prefix ++ k) (g.prefix ++ name) value s.entries,
    bytes_beq_iff (g.prefix ++ name) (other.prefix ++ k),
  )

  -- A flag that was stored is read back, whatever the default.
  pub get_bool-set_bool :
      (g : Group) (name : Bytes) (value default : Bool) (s : Store W)
      → get_bool g (set_bool flush g name value s).0.entries name default ≡ value
  unfolding get_bool set_bool bool_of_text
  get_bool-set_bool g name value default s = ground (
    arith,
    get-set g g name (if value then b'y' ∷ [] else b'n' ∷ []) name [] s,
    bytes_beq_iff (g.prefix ++ name) (g.prefix ++ name),
  )

-- A name of a subgroup is no own name of the group above it.
own_name-subgroup :
    (g : Group) (name k : Bytes) → own_name g.prefix ((subgroup g name).prefix ++ k) ≡ none
unfolding own_name subgroup mem
own_name-subgroup g name k = ground (
  arith,
  append_assoc g.prefix (name ++ separator ∷ []) k,
  strip_prefix-append g.prefix ((name ++ separator ∷ []) ++ k),
  mem-append separator (name ++ separator ∷ []) k,
  mem-append separator name (separator ∷ []),
)

own_name-append :
    (prefix k : Bytes) → mem separator k ≡ false → own_name prefix (prefix ++ k) ≡ some k
unfolding own_name
own_name-append prefix k h = ground (arith, strip_prefix-append prefix k)

-- `clear` leaves the group with no name of its own, and every subgroup, at any name, with what it had.
pub clear-subgroup :
    {W : Type 0} (g : Group) (s : Store W) (name k own default : Bytes) (strict use_blank : Bool)
    → mem separator own ≡ false
    → (contains g (clear g s).entries own use_blank ≡ false)
      × (get (subgroup g name) (clear g s).entries k default strict
          ≡ get (subgroup g name) s.entries k default strict)
unfolding contains get clear
clear-subgroup g s name k own default strict use_blank h =
    let full = if strict then safe_name k else k in
    (
      ground (
        arith,
        find_cleared g.prefix s.entries (g.prefix ++ own),
        own_name-append g.prefix own h,
      ),
      ap (λ o. or_default o default)
          (find_cleared g.prefix s.entries ((subgroup g name).prefix ++ full)
            ∙ ap (λ o. unless_own o (StdMap.find ((subgroup g name).prefix ++ full) s.entries))
                (own_name-subgroup g name full)),
    )
