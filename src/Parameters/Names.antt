-- ===== src/Parameters/Names.antt =====
-- Which keys of the shared map belong to a group.
use libcernvm.Prelude.{
  ◌≡◌, refl, ap, ◌∙◌, Bool, false, not, ◌&&◌, ◌||◌, List, [], ◌∷◌, ◌++◌, Option, none, some, arith,
  if◌then◌else◌, ==_iff as byte_eq_iff, Option-cases, inl, inr,
}
use libcernvm.Prelude.Keys.{Bytes, bytes_key, bytes_beq, bytes_beq_iff, ◌==◌}
use libcernvm.Prelude.Member.{mem}
use libcernvm.StdMap
use libcernvm.StdMap.{Map, is_some}
use libcernvm.Parameters.{
  Entries, separator, strip_prefix, own_name, enum_keys, erase_names, put_on_map,
}

pub find-put_on_map :
    (j key value : Bytes) (m : Entries)
    → StdMap.find j (put_on_map key value m) ≡ (if key == j then some value else StdMap.find j m)
unfolding put_on_map
find-put_on_map j key value m = elim (Option-cases (StdMap.find key m)) [
  | inl gone ↦ rw gone (ground (arith, StdMap.find-insert j key value m, bytes_beq_iff key j))
  | inr (v, here) ↦ rw here (
      ground (
        arith,
        StdMap.find-insert j key value (StdMap.erase key m),
        StdMap.find-erase key key m,
        StdMap.find-erase j key m,
        bytes_beq_iff key j,
        bytes_beq_iff key key,
      ))
]

abbrev pub is_name : Bytes → Option Bytes → Bool
is_name k none = false
is_name k (some r) = k == r

pub bytes_beq-append :
    (prefix k key : Bytes) → ((prefix ++ k) == key) ≡ is_name k (strip_prefix prefix key)
unfolding strip_prefix bytes_beq
bytes_beq-append [] k key = refl
bytes_beq-append (p ∷ prefix) k [] = refl
bytes_beq-append (p ∷ prefix) k (c ∷ key) = ground (arith, bytes_beq-append prefix k key)

pub strip_prefix-append : (prefix k : Bytes) → strip_prefix prefix (prefix ++ k) ≡ some k
unfolding strip_prefix
strip_prefix-append [] k = refl
strip_prefix-append (p ∷ prefix) k = ground (arith, strip_prefix-append prefix k, byte_eq_iff p p)

unfoldable pub name_in : Bytes → List Bytes → Bool
name_in k [] = false
name_in k (x ∷ xs) = x == k || name_in k xs

-- `enumKeys` lists exactly the names without a separator that stand under the prefix.
pub name_in-enum_keys :
    (prefix k : Bytes) (m : Entries)
    → name_in k (enum_keys prefix m)
      ≡ is_some (StdMap.find (prefix ++ k) m) && not (mem separator k)
unfolding name_in enum_keys own_name StdMap.find
name_in-enum_keys prefix k [] = refl
name_in-enum_keys prefix k ((key, value) ∷ m) = elim (Option-cases (strip_prefix prefix key)) [
  | inl other ↦ ground (
    arith,
    name_in-enum_keys prefix k m,
    bytes_beq-append prefix k key,
    bytes_beq_iff key (prefix ++ k),
    bytes_beq_iff (prefix ++ k) key,
  )
  | inr (r, under) ↦ ground (
    arith,
    name_in-enum_keys prefix k m,
    bytes_beq-append prefix k key,
    bytes_beq_iff key (prefix ++ k),
    bytes_beq_iff (prefix ++ k) key,
    bytes_beq_iff r k,
    bytes_beq_iff k r,
  )
]

abbrev without : Option Bytes → List Bytes → Option Bytes → Option Bytes
without none ks found = found
without (some r) ks found = if name_in r ks then none else found

find-erase_names :
    (prefix : Bytes) (ks : List Bytes) (m : Entries) (j : Bytes)
    → StdMap.find j (erase_names prefix ks m) ≡ without (strip_prefix prefix j) ks (StdMap.find j m)
unfolding erase_names name_in
find-erase_names prefix [] m j = ground arith
find-erase_names prefix (k ∷ ks) m j = ground (
  arith,
  find-erase_names prefix ks (StdMap.erase (prefix ++ k) m) j,
  StdMap.find-erase j (prefix ++ k) m,
  bytes_beq-append prefix k j,
)

abbrev pub unless_own : Option Bytes → Option Bytes → Option Bytes
unless_own none found = found
unless_own (some _) found = none

strip_prefix-eq : (prefix key r : Bytes) → strip_prefix prefix key ≡ some r → (prefix ++ r) ≡ key
strip_prefix-eq prefix key r h =
    (bytes_beq_iff (prefix ++ r) key).0
      (bytes_beq-append prefix r key ∙ ap (is_name r) h ∙ (bytes_beq_iff r r).1 refl)

-- Erasing the listed names of a group erases its own keys and no other.
pub find_cleared :
    (prefix : Bytes) (m : Entries) (j : Bytes)
    → StdMap.find j (erase_names prefix (enum_keys prefix m) m)
      ≡ unless_own (own_name prefix j) (StdMap.find j m)
unfolding own_name
find_cleared prefix m j = elim (Option-cases (strip_prefix prefix j)) [
  | inl other ↦ ground (arith, find-erase_names prefix (enum_keys prefix m) m j)
  | inr (r, under) ↦ ground (
    arith,
    find-erase_names prefix (enum_keys prefix m) m j,
    name_in-enum_keys prefix r m,
    strip_prefix-eq prefix j r under,
  )
]
