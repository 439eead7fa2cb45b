-- ===== src/Parameters/Tests.antt =====
-- Parameter groups at work on a small map.
use libcernvm.Prelude.Texts.{codes}
use libcernvm.Prelude.{ℕ, ◌+◌, ◌≡◌, refl, arith, false, true, [], ◌∷◌, ◌++◌, some, if◌then◌else◌}
use libcernvm.Prelude.Keys.{Bytes, bytes_key, bytes_beq, bytes_blt, ◌==◌}
use libcernvm.StdMap
use libcernvm.Parameters
use libcernvm.Parameters.{
  Entries, Group, Store, instance_root, subgroup, put_on_map, separator, get, get_bool, contains,
  set, set_bool, set_default, erase, clear, lock, unlock, to_map, from_map, from_parameters,
}
use libcernvm.Parameters.Numbers.{get_num_or, set_num, get_num_or-set_num}
use libcernvm.Parameters.Json.{Json, Members, from_json, leaves, value_of, from_json-leaves}
use libcernvm.Parameters.Batch.{put_all, set_all, unlock-set_all}

abbrev cpu : Bytes
cpu = codes "cpu"

abbrev two : Bytes
two = b'2' ∷ []

abbrev four : Bytes
four = b'4' ∷ []

-- The root commits by counting.
abbrev count_commits : Entries → ℕ → ℕ
count_commits m w = w + 1

abbrev vm : Group
vm = subgroup instance_root (codes "vm")

abbrev store : Store ℕ
store = record { entries = (cpu, two) ∷ (b'v' ∷ b'm' ∷ b'/' ∷ cpu, four) ∷ []; world = 0 }

-- A name that a group sets is the full name in the root.
set_by_group :
    (set count_commits vm cpu two store).0.entries
    ≡ (cpu, two) ∷ (b'v' ∷ b'm' ∷ b'/' ∷ cpu, two) ∷ []
unfolding set subgroup instance_root put_on_map StdMap.find StdMap.erase StdMap.insert StdMap.place
    Parameters.written Parameters.commit_changes bytes_beq bytes_blt
set_by_group = refl

unlock-set_all_example :
    let (s1, g1) = set_all count_commits (lock vm) ((cpu, two) ∷ (two, four) ∷ []) store in
    let (s2, g2) = unlock count_commits g1 s1 in
    (s2.entries ≡ put_all vm.prefix ((cpu, two) ∷ (two, four) ∷ []) store.entries)
    × (s2.world ≡ count_commits (put_all vm.prefix ((cpu, two) ∷ (two, four) ∷ []) store.entries) 0)
    × (s1.world ≡ 0)
    × (g2.locked ≡ false)
unlock-set_all_example = unlock-set_all count_commits vm ((cpu, two) ∷ (two, four) ∷ []) store

abbrev plain_map : Entries
plain_map = (cpu, four) ∷ []

get_num_or-set_num_example :
    get_num_or vm (set_num count_commits vm cpu 4294967290 store).0.entries cpu 1 ≡ (
      if (vm.prefix ++ cpu) == (vm.prefix ++ cpu)
      then 4294967290
      else get_num_or vm store.entries cpu 1)
get_num_or-set_num_example =
    get_num_or-set_num count_commits vm vm cpu cpu 4294967290 1 store (omega arith)

-- {"net": {"cpu": "4"}, "two": 2}
abbrev nested : Members
nested =
    Members.member (codes "net") (Json.object (Members.member cpu (Json.string four) Members.end))
      (Members.member two (Json.int 2) Members.end)

from_json-leaves_example :
    StdMap.find cpu (from_json count_commits vm nested false true store).0.entries
    ≡ value_of cpu (leaves true nested) (StdMap.find cpu store.entries)
from_json-leaves_example = from_json-leaves count_commits vm nested false true cpu store

-- "cpu" of "net", below the group "vm", stands under its bare name.
bare_cpu : value_of cpu (leaves true nested) (StdMap.find cpu store.entries) ≡ some four
unfolding value_of leaves StdMap.find bytes_beq
bare_cpu = refl
