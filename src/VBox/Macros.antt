-- ===== src/VBox/Macros.antt =====
-- macroReplace of src/Hypervisor/Virtualbox/VBoxSession.cpp: the values of a parameter map in place of
-- the tokens of a text.
pub mod Ends
mod Tests
use libcernvm.Prelude.Texts.{codes}
use libcernvm.Prelude.{
  ℕ, zero, suc, ◌+◌, ◌-◌, ◌≡◌, Bool, true, false, List, [], ◌∷◌, ◌++◌, Option, none, some,
  if◌then◌else◌, take, drop, ◌==◌,
}
use libcernvm.Prelude.Keys.{Bytes, bytes_key}
use libcernvm.StdMap
use libcernvm.Parameters.{Entries, Group, to_map}
use libcernvm.Utilities.Text.Positions.{npos, find_char, find_text, cut}

-- The token and its default.
unfoldable pub token_parts : Bytes → Bytes × Bytes
token_parts token =
    let colon = find_char b':' token 0 in
    if colon == npos then (token, []) else (take colon token, drop (colon + 1) token)

unfoldable pub token_value : Entries → Bytes → Bytes
token_value u_data token =
    let (name, v_default) = token_parts token in
    elim (StdMap.find name u_data) [ none ↦ v_default | some value ↦ value ]

-- The text with the value in place of the token between two positions.
unfoldable pub replaced : Entries → ℕ → ℕ → Bytes → Bytes
replaced u_data tok_start tok_len i_string =
    take tok_start i_string
    ++ (token_value u_data (cut (tok_start + 2) (tok_len - 2) i_string)
        ++ drop (tok_start + tok_len + 1) i_string)

-- The loop, from the position `l_pos` on.
unfoldable pub replace_loop : ℕ → Entries → ℕ → Bytes → Option Bytes
replace_loop zero u_data l_pos i_string = none
replace_loop (suc fuel) u_data l_pos i_string =
    let tok_start = find_text (codes "${") i_string l_pos in
    let e_pos = find_char b'}' i_string (tok_start + 2) in
    let tok_len = e_pos - tok_start in
    let rest =
      replace_loop fuel u_data (tok_start + tok_len) (replaced u_data tok_start tok_len i_string) in
    if tok_start == npos then some i_string else if e_pos == npos then some i_string else rest

-- What a group that may be missing holds.
unfoldable pub macro_data : Option Group → Entries → Entries
macro_data none entries = []
macro_data (some map_data) entries = to_map map_data entries false []

unfoldable pub macro_replace : ℕ → Option Group → Entries → Bytes → Option Bytes
macro_replace fuel map_data entries i_string =
    replace_loop fuel (macro_data map_data entries) 0 i_string
