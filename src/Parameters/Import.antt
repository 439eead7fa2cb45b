-- ===== src/Parameters/Import.antt =====
-- Copies between maps: fromMap, toMap and fromParameters.
use libcernvm.Prelude.{
  ◌≡◌, refl, ap, ◌∙◌, Bool, true, false, not, ◌&&◌, ◌||◌, List, [], ◌∷◌, ◌++◌, Option, none, some,
  arith, if◌then◌else◌, Option-cases, inl, inr,
}
use libcernvm.Prelude.Keys.{Bytes, bytes_key, bytes_beq_iff}
use libcernvm.Prelude.Member.{mem}
use libcernvm.StdMap
use libcernvm.StdMap.{Map, is_some, or_some}
use libcernvm.Parameters.{
  Entries, Group, Store, separator, or_default, strip_prefix, own_name, enum_keys, put_on_map,
  clear, copy_names, to_map, put_entries, import_names, from_map, from_parameters,
}
use libcernvm.Parameters.Names.{
  find-put_on_map, strip_prefix-append, bytes_beq-append, unless_own, find_cleared, name_in,
  name_in-enum_keys,
}
use libcernvm.Parameters.Groups.{written-entries}

-- What a map offers for a full name of the group with the prefix.
abbrev pub offered : Entries → Option Bytes → Option Bytes
offered source none = none
offered source (some name) = StdMap.find name source

abbrev pub prefer : Bool → Option Bytes → Option Bytes → Option Bytes
prefer replace new old = if replace then or_some new old else or_some old new

find-put_entries :
    (prefix : Bytes) (replace : Bool) (source m : Entries) (j : Bytes)
    → StdMap.Unique source
    → StdMap.find j (put_entries prefix replace source m)
      ≡ prefer replace (offered source (strip_prefix prefix j)) (StdMap.find j m)
unfolding put_entries StdMap.find
find-put_entries prefix replace [] m j u = ground arith
find-put_entries prefix replace ((name, value) ∷ source) m j u =
    let key = prefix ++ name in
    let m' = if replace || not (is_some (StdMap.find key m)) then put_on_map key value m else m in
    elim (Option-cases (strip_prefix prefix j)) [
      | inl other ↦ ground (
        arith,
        find-put_entries prefix replace source m' j u.1,
        find-put_on_map j key value m,
        bytes_beq-append prefix name j,
      )
      | inr (r, under) ↦ ground (
        arith,
        find-put_entries prefix replace source m' j u.1,
        find-put_on_map j key value m,
        bytes_beq-append prefix name j,
        u.0,
        bytes_beq_iff name r,
        bytes_beq_iff key j,
      )
    ]

find-copy_names :
    (prefix : Bytes) (m : Entries) (ks : List Bytes) (out : Entries) (k : Bytes)
    → StdMap.find k (copy_names prefix m ks out)
      ≡ or_some
          (StdMap.find k out)
          (if name_in k ks then some (or_default (StdMap.find (prefix ++ k) m) []) else none)
unfolding copy_names name_in
find-copy_names prefix m [] out k = ground arith
find-copy_names prefix m (x ∷ ks) out k = ground (
  arith,
  find-copy_names prefix m ks (StdMap.insert x (or_default (StdMap.find (prefix ++ x) m) []) out) k,
  StdMap.find-insert k x (or_default (StdMap.find (prefix ++ x) m) []) out,
  bytes_beq_iff x k,
)

-- `toMap` copies the group's own names with their values; what the given map has of such a name
-- stays, unless it is cleared.
pub find-to_map :
    (g : Group) (m out : Entries) (clear_before : Bool) (k : Bytes)
    → StdMap.find k (to_map g m clear_before out)
      ≡ or_some
          (if clear_before then none else StdMap.find k out)
          (if mem separator k then none else StdMap.find (g.prefix ++ k) m)
unfolding to_map StdMap.find
find-to_map g m out clear_before k = ground (
  arith,
  find-copy_names g.prefix m (enum_keys g.prefix m) (if clear_before then [] else out) k,
  name_in-enum_keys g.prefix k m,
)

-- What fromParameters offers for a name: the other group must list it, and the value is the one that
-- the other map has under the name without the other group's prefix.
abbrev pub listed : Group → Entries → Option Bytes → Option Bytes
listed other source none = none
listed other source (some name) =
    if is_some (StdMap.find (other.prefix ++ name) source) && not (mem separator name)
    then some (or_default (StdMap.find name source) [])
    else none

abbrev import_offer : List Bytes → Entries → Option Bytes → Option Bytes
import_offer names source none = none
import_offer names source (some name) =
    if name_in name names then some (or_default (StdMap.find name source) []) else none

find-import_names :
    (prefix : Bytes) (replace : Bool) (names : List Bytes) (m source : Entries) (j : Bytes)
    → StdMap.find j (import_names prefix replace names m source).0
      ≡ prefer replace (import_offer names source (strip_prefix prefix j)) (StdMap.find j m)
unfolding import_names name_in
find-import_names prefix replace [] m source j = ground arith
find-import_names prefix replace (name ∷ names) m source j =
    let key = prefix ++ name in
    let value = or_default (StdMap.find name source) [] in
    let wanted = replace || not (is_some (StdMap.find key m)) in
    let m' = if wanted then put_on_map key value m else m in
    let source' = if wanted then StdMap.insert name [] source else source in
    elim (Option-cases (strip_prefix prefix j)) [
      | inl other ↦ ground (
        arith,
        find-import_names prefix replace names m' source' j,
        find-put_on_map j key value m,
        bytes_beq-append prefix name j,
      )
      | inr (r, under) ↦ ground (
        arith,
        find-import_names prefix replace names m' source' j,
        find-put_on_map j key value m,
        bytes_beq-append prefix name j,
        StdMap.find-insert r name [] source,
        bytes_beq_iff name r,
        bytes_beq_iff key j,
      )
    ]

cleared_before :
    {W : Type 0} (g : Group) (clear_before : Bool) (s : Store W) (j : Bytes)
    → StdMap.find j (if clear_before then clear g s else s).entries ≡ (
        if clear_before
        then unless_own (own_name g.prefix j) (StdMap.find j s.entries)
        else StdMap.find j s.entries)
unfolding clear
cleared_before g false s j = refl
cleared_before g true s j = find_cleared g.prefix s.entries j

module _ {W : Type 0} (flush : Entries → W → W) where
  -- `fromMap` puts each entry of the map under its full name; it goes before what the group has if
  -- `replace` is set, and behind it if not. With `clear_before` the group's own names are gone first.
  pub find-from_map :
      (g : Group) (source : Entries) (clear_before replace : Bool) (s : Store W) (j : Bytes)
      → StdMap.Unique source
      → StdMap.find j (from_map flush g (some source) clear_before replace s).0.entries
        ≡ prefer replace (offered source (strip_prefix g.prefix j)) (
            if clear_before
            then unless_own (own_name g.prefix j) (StdMap.find j s.entries)
            else StdMap.find j s.entries)
  unfolding from_map
  find-from_map g source clear_before replace s j u =
      let s' = if clear_before then clear g s else s in
      ap (StdMap.find j) (
        written-entries flush g
          (record s' { entries = put_entries g.prefix replace source s'.entries }))
      ∙ find-put_entries g.prefix replace source s'.entries j u
      ∙ ap (prefer replace (offered source (strip_prefix g.prefix j)))
          (cleared_before g clear_before s j)

  listed-enum_keys :
      (other : Group) (source : Entries) (o : Option Bytes)
      → import_offer (enum_keys other.prefix source) source o ≡ listed other source o
  listed-enum_keys other source none = refl
  listed-enum_keys other source (some name) = rw (name_in-enum_keys other.prefix name source)

  -- `fromParameters` takes the names that the other group lists, and for each the value that the
  -- other map has under the bare name.
  pub find-from_parameters :
      (g other : Group) (source : Entries) (clear_before replace : Bool) (s : Store W) (j : Bytes)
      → StdMap.find j (from_parameters flush g other source clear_before replace s).0.entries
        ≡ prefer replace (listed other source (strip_prefix g.prefix j)) (
            if clear_before
            then unless_own (own_name g.prefix j) (StdMap.find j s.entries)
            else StdMap.find j s.entries)
  unfolding from_parameters
  find-from_parameters g other source clear_before replace s j =
      let s' = if clear_before then clear g s else s in
      let names = enum_keys other.prefix source in
      ap (StdMap.find j) (
        written-entries flush g
          (record s' { entries = (import_names g.prefix replace names s'.entries source).0 }))
      ∙ find-import_names g.prefix replace names s'.entries source j
      ∙ ap (λ o. prefer replace o (StdMap.find j s'.entries))
          (listed-enum_keys other source (strip_prefix g.prefix j))
      ∙ ap (prefer replace (listed other source (strip_prefix g.prefix j)))
          (cleared_before g clear_before s j)

  -- So a parameter of a group with a prefix, whose bare name is no key of its map, arrives empty.
  pub from_parameters_blank :
      (g other : Group) (source : Entries) (clear_before : Bool) (s : Store W) (name value : Bytes)
      → StdMap.find (other.prefix ++ name) source ≡ some value
      → mem separator name ≡ false
      → StdMap.find name source ≡ none
      → StdMap.find
          (g.prefix ++ name)
          (from_parameters flush g other source clear_before true s).0.entries
        ≡ some []
  from_parameters_blank g other source clear_before s name value full plain bare =
      find-from_parameters g other source clear_before true s (g.prefix ++ name)
      ∙ ground (arith, strip_prefix-append g.prefix name)
