-- ===== src/VBox/Macros/Tests.antt =====
-- Texts with tokens for macroReplace of src/Hypervisor/Virtualbox/VBoxSession.cpp.
use libcernvm.Prelude.Texts.{codes}
use libcernvm.Prelude.{
  ◌≡◌, refl, sym, ap, ◌∙◌, false, [], ◌∷◌, Option, some, inl, inr, arith, Bool-cases,
}
use libcernvm.Prelude.Keys.{Bytes, bytes_key, bytes_beq}
use libcernvm.StdMap
use libcernvm.Parameters.{Entries, Group, to_map, copy_names, enum_keys, own_name, strip_prefix}
use libcernvm.Prelude.Member.{mem}
use libcernvm.Utilities.Text.Positions.{
  find_char, find_text, cut, first_from, text_from, starts_with,
}
use libcernvm.VBox.Macros.{
  token_parts, token_value, replaced, replace_loop, macro_data, macro_replace,
}
use libcernvm.VBox.Macros.Ends.{Plain, dollars, macro_replace-ends}

abbrev user_data : Option Group
user_data = some (record { prefix = []; locked = false; changed = false; depth = 0 })

abbrev entries : Entries
entries = (b'a' ∷ [], codes "xy") ∷ []

-- "${a}, ${b:z}"
abbrev template : Bytes
template = codes "${a},${b:z}"

macro_replace_filled : macro_replace 3 user_data entries template ≡ some (codes "xy,z")
unfolding macro_replace macro_data replace_loop replaced token_value token_parts find_text find_char
    cut text_from first_from starts_with to_map copy_names enum_keys StdMap.find StdMap.insert
    StdMap.place own_name strip_prefix mem bytes_beq
macro_replace_filled = refl

entries_kept : macro_data user_data entries ≡ entries
unfolding macro_data to_map copy_names enum_keys StdMap.find StdMap.insert StdMap.place own_name
    strip_prefix mem bytes_beq
entries_kept = refl

entries-Plain : Plain (macro_data user_data entries)
unfolding Plain StdMap.find dollars
entries-Plain name value found = elim (Bool-cases (bytes_beq (b'a' ∷ []) name)) [
  | inl same ↦ ground (arith, at_entries, same)
  | inr differ ↦ absurd (ground (arith, at_entries, differ))
]
  where
    at_entries : StdMap.find name entries ≡ some value
    at_entries = ap (StdMap.find name) (sym entries_kept) ∙ found

macro_replace-ends_example : (t : Bytes) × (macro_replace 3 user_data entries template ≡ some t)
unfolding dollars
macro_replace-ends_example =
    macro_replace-ends 3 user_data entries template entries-Plain (omega arith)
