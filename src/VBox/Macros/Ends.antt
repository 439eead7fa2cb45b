-- ===== src/VBox/Macros/Ends.antt =====
-- macroReplace of src/Hypervisor/Virtualbox/VBoxSession.cpp comes to an end.
use libcernvm.Prelude.Texts.{codes}
use libcernvm.Prelude.{
  ℕ, zero, suc, ◌+◌, ◌-◌, ◌≤◌, ◌<◌, ◌≡◌, ◌≢◌, refl, sym, ap, ◌∙◌, true, [], ◌∷◌, ◌++◌, Option, some,
  inl, inr, arith, if◌then◌else◌, take, drop, ◌==◌, Bool-cases, Option-cases, take-append-drop,
}
use libcernvm.Prelude.Keys.{Bytes, bytes_key}
use libcernvm.StdMap
use libcernvm.Parameters.{Entries, Group}
use libcernvm.Utilities.Text.Positions.{
  drop-add, npos, find_char, find_text, cut, first_from, text_from, starts_with,
}
use libcernvm.VBox.Macros.{
  token_parts, token_value, replaced, replace_loop, macro_data, macro_replace,
}

-- The number of dollar signs in a text.
unfoldable pub dollars : Bytes → ℕ
dollars [] = 0
dollars (x ∷ s) = let rest = dollars s in if x == b'$' then rest + 1 else rest

-- No value holds a dollar sign.
unfoldable pub Plain : Entries → Type 0
Plain u_data = (name value : Bytes) → StdMap.find name u_data ≡ some value → dollars value ≡ 0

dollars-append : (s t : Bytes) → dollars (s ++ t) ≡ dollars s + dollars t
unfolding dollars
dollars-append [] t = omega arith
dollars-append (x ∷ s) t = ground (arith, dollars-append s t)

dollars-drop : (n : ℕ) (s : Bytes) → dollars (drop n s) ≤ dollars s
unfolding dollars
dollars-drop zero s = omega arith
dollars-drop (suc n) [] = omega arith
dollars-drop (suc n) (x ∷ s) = ground (arith, dollars-drop n s)

dollars-take : (n : ℕ) (s : Bytes) → dollars (take n s) ≤ dollars s
dollars-take n s =
    omega (arith, dollars-append (take n s) (drop n s), ap dollars (take-append-drop n s))

-- What stands behind the first part of a text that is put together again.
dollars-behind : (n : ℕ) (s t : Bytes) → dollars (drop n (take n s ++ t)) ≤ dollars t
dollars-behind zero s t = omega arith
dollars-behind (suc n) [] t = dollars-drop (suc n) t
dollars-behind (suc n) (x ∷ s) t = dollars-behind n s t

-- A position that is found.
first_from-found :
    (c : ℕ) (s : Bytes) (at : ℕ)
    → first_from c s at ≢ npos
    → (k : ℕ) × (rest : Bytes) × (first_from c s at ≡ at + k) × (drop k s ≡ c ∷ rest)
unfolding first_from
first_from-found c [] at found = absurd (found refl)
first_from-found c (x ∷ s) at found = elim (Bool-cases (x == c)) [
  | inl here ↦ (0, s, rw here (omega arith), ap (λ y. y ∷ s) (ground (arith, here)))
  | inr further ↦
      let (k, rest, is_at, is_c) = first_from-found c s (suc at) (ground (arith, further, found)) in
      (suc k, rest, rw further (omega (arith, is_at)), is_c)
]

starts_with_token :
    (x : ℕ) (s : Bytes)
    → starts_with (codes "${") (x ∷ s) ≡ true
    → (rest : Bytes) × (x ∷ s ≡ b'$' ∷ b'{' ∷ rest)
unfolding starts_with
starts_with_token x [] h = absurd (ground (arith, h))
starts_with_token x (y ∷ s) h =
    let is_dollar : x ≡ b'$' = ground (arith, h) in
    let is_brace : y ≡ b'{' = ground (arith, h) in (s, rw (is_dollar, is_brace) refl)

text_from-found :
    (s : Bytes) (at : ℕ)
    → text_from (codes "${") s at ≢ npos
    → (k : ℕ) × (rest : Bytes) × (text_from (codes "${") s at ≡ at + k)
      × (drop k s ≡ b'$' ∷ b'{' ∷ rest)
unfolding text_from starts_with
text_from-found [] at found = absurd (found refl)
text_from-found (x ∷ s) at found = elim (Bool-cases (starts_with (codes "${") (x ∷ s))) [
  | inl here ↦
      let (rest, is_token) = starts_with_token x s here in
      (0, rest, rw here (omega arith), is_token)
  | inr further ↦
      let (k, rest, is_at, is_token) =
        text_from-found s (suc at) (ground (arith, further, found)) in
      (suc k, rest, rw further (omega (arith, is_at)), is_token)
]

default_dollars : (token : Bytes) → dollars (token_parts token).1 ≤ dollars token
unfolding token_parts dollars
default_dollars token = elim (Bool-cases (find_char b':' token 0 == npos)) [
  | inl no_colon ↦ ground (arith, no_colon)
  | inr colon ↦ ground (arith, colon, dollars-drop (find_char b':' token 0 + 1) token)
]

token_value-dollars :
    (u_data : Entries) (token : Bytes)
    → Plain u_data
    → dollars (token_value u_data token) ≤ dollars token
unfolding token_value Plain
token_value-dollars u_data token plain =
    elim (Option-cases (StdMap.find (token_parts token).0 u_data)) [
      | inl missing ↦ ground (arith, missing, default_dollars token)
      | inr (value, is_value) ↦ ground (arith, is_value, plain (token_parts token).0 value is_value)
    ]

-- A round leaves fewer dollar signs ahead.
replaced-dollars :
    (u_data : Entries) (start j : ℕ) (s r post : Bytes)
    → Plain u_data
    → drop start s ≡ b'$' ∷ b'{' ∷ r
    → drop j r ≡ b'}' ∷ post
    → dollars (drop (start + (j + 2)) (replaced u_data start (j + 2) s)) < dollars (drop start s)
unfolding replaced dollars cut
replaced-dollars u_data start j s r post plain at_start at_end =
    let behind : drop (start + 2) s ≡ r = sym (drop-add start 2 s) ∙ ap (drop 2) at_start in
    let short : j + 2 - 2 ≡ j = omega arith in
    let token : cut (start + 2) (j + 2 - 2) s ≡ take j r = rw (short, behind) refl in
    let further : start + (j + 2) + 1 ≡ start + 2 + (j + 1) = omega arith in
    let rest : drop (j + 1) r ≡ post = sym (drop-add j 1 r) ∙ ap (drop 1) at_end in
    let after : drop (start + (j + 2) + 1) s ≡ post =
      rw further (sym (drop-add (start + 2) (j + 1) s) ∙ ap (drop (j + 1)) behind ∙ rest) in
    let value = token_value u_data (take j r) in
    let inner : dollars r ≡ dollars (take j r) + dollars post =
      ap dollars (sym (take-append-drop j r))
      ∙ dollars-append (take j r) (drop j r)
      ∙ ap (λ n. dollars (take j r) + n) (ap dollars at_end) in
    let new : replaced u_data start (j + 2) s ≡ take start s ++ (value ++ post) =
      rw (token, after) refl in
    let old : dollars (drop start s) ≡ dollars r + 1 = ap dollars at_start in
    rw (new, sym (drop-add start (j + 2) (take start s ++ (value ++ post))), old)
      (omega (
        arith,
        dollars-drop (j + 2) (drop start (take start s ++ (value ++ post))),
        dollars-behind start s (value ++ post),
        dollars-append value post,
        token_value-dollars u_data (take j r) plain,
        inner,
      ))

-- Each round takes a dollar sign away.
replace_loop-ends :
    (fuel : ℕ) (u_data : Entries) (l_pos : ℕ) (s : Bytes)
    → Plain u_data
    → dollars (drop l_pos s) < fuel
    → (t : Bytes) × (replace_loop fuel u_data l_pos s ≡ some t)
unfolding replace_loop find_text find_char
replace_loop-ends zero u_data l_pos s plain enough = absurd (omega (arith, enough))
replace_loop-ends (suc fuel) u_data l_pos s plain enough =
    let start = find_text (codes "${") s l_pos in
    let end = find_char b'}' s (start + 2) in
    elim (Bool-cases (start == npos)) [
      | inl no_token ↦ (s, ground (arith, no_token))
      | inr token ↦ elim (Bool-cases (end == npos)) [
        | inl no_end ↦ (s, ground (arith, token, no_end))
        | inr ended ↦
            let (k, r, is_start, at_start) =
              text_from-found (drop l_pos s) l_pos (ground (arith, token)) in
            let (j, post, is_end, at_end) =
              first_from-found b'}' (drop (start + 2) s) (start + 2) (ground (arith, ended)) in
            let at_token : drop start s ≡ b'$' ∷ b'{' ∷ r =
              ap (λ n. drop n s) is_start ∙ sym (drop-add l_pos k s) ∙ at_start in
            let behind : drop (start + 2) s ≡ r = sym (drop-add start 2 s) ∙ ap (drop 2) at_token in
            let at_brace : drop j r ≡ b'}' ∷ post = ap (drop j) (sym behind) ∙ at_end in
            let ends_at : end ≡ start + 2 + j = is_end in
            let tok_len : end - start ≡ j + 2 = omega (arith, ends_at) in
            let ahead : drop start s ≡ drop k (drop l_pos s) = at_token ∙ sym at_start in
            let fewer = replaced-dollars u_data start j s r post plain at_token at_brace in
            let still : dollars (drop (start + (j + 2)) (replaced u_data start (j + 2) s)) < fuel =
              omega (arith, fewer, ap dollars ahead, dollars-drop k (drop l_pos s), enough) in
            let (t, ends) =
              replace_loop-ends fuel u_data (start + (end - start))
                (replaced u_data start (end - start) s) plain (rw tok_len still) in
            (t, rw (token, ended) ends)
      ]
    ]

-- macroReplace comes to an end when no value of the map holds a dollar sign: one round more than the
-- text has dollar signs is enough, also when the default of a token holds some.
pub macro_replace-ends :
    (fuel : ℕ) (map_data : Option Group) (entries : Entries) (i_string : Bytes)
    → Plain (macro_data map_data entries)
    → dollars i_string < fuel
    → (t : Bytes) × (macro_replace fuel map_data entries i_string ≡ some t)
unfolding macro_replace
macro_replace-ends fuel map_data entries i_string plain enough =
    replace_loop-ends fuel (macro_data map_data entries) 0 i_string plain enough
