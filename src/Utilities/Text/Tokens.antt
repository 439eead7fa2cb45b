-- ===== src/Utilities/Text/Tokens.antt =====
-- Lines of keys and values, as VBoxManage prints them, and what tokenize of src/Utilities.cpp reads.
use libcernvm.Prelude.Texts.{codes}
use libcernvm.Prelude.{
  ℕ, ◌+◌, ◌-◌, ◌<◌, ◌≡◌, refl, ap, ◌∙◌, Bool, false, List, [], ◌∷◌, ◌++◌, none, some, inl, inr,
  arith, map, if◌then◌else◌, length, drop, ◌==◌, Option-cases,
}
use libcernvm.Prelude.Member.{All, mem}
use libcernvm.Prelude.Keys.{Bytes, bytes_key, bytes_beq, bytes_beq_iff}
use libcernvm.StdMap
use libcernvm.StdMap.{Map, is_some, or_some, find-insert}
use libcernvm.Ipc.Blocks.{take-append, drop_beyond}
use libcernvm.Utilities.Text.{get_kv, skip_blanks, tokenize, tokenize_into}
use libcernvm.Utilities.Text.Positions.{npos, first_from-word, find_char, cut}

-- A line with a key and a value.
unfoldable pub print_pair : ℕ → Bytes × Bytes → Bytes
print_pair delim (key, value) = key ++ (delim ∷ b' ' ∷ value)

unfoldable pub starts_blank : Bytes → Bool
starts_blank [] = false
starts_blank (c ∷ s) = mem c (codes " \t")

-- A key without the delimiter that a std::string can hold, and a value that starts with no blank.
abbrev pub IsPrintable : ℕ → Bytes × Bytes → Type 0
IsPrintable delim (key, value) =
    (mem delim key ≡ false) × (length key < npos) × (starts_blank value ≡ false)

skip_blanks-value : (value : Bytes) → starts_blank value ≡ false → skip_blanks value ≡ value
unfolding skip_blanks starts_blank
skip_blanks-value [] h = refl
skip_blanks-value (c ∷ s) h = rw h refl

pub get_kv-word :
    (d : ℕ) (key t : Bytes)
    → mem d key ≡ false
    → length key < npos
    → get_kv (key ++ (d ∷ t)) d 0 ≡ (length key, key, skip_blanks t)
unfolding get_kv
get_kv-word d key t no_delim short = rw (found, not_npos, whole, behind) refl
  where
    found : find_char d (key ++ (d ∷ t)) 0 ≡ length key
    found = unfold find_char in first_from-word d key t 0 no_delim ∙ omega arith

    not_npos : (length key == npos) ≡ false
    not_npos = ground (arith, short)

    whole : cut 0 (length key - 0) (key ++ (d ∷ t)) ≡ key
    whole =
        let size : length key - 0 ≡ length key = omega arith in
        unfold cut in rw (size) (take-append key (d ∷ t))

    behind : drop (length key + 1) (key ++ (d ∷ t)) ≡ t
    behind = drop_beyond key (d ∷ t) 1

find_char-print :
    (d : ℕ) (e : Bytes × Bytes) → IsPrintable d e → find_char d (print_pair d e) 0 ≡ length e.0
unfolding find_char print_pair
find_char-print d e h = first_from-word d e.0 (b' ' ∷ e.1) 0 h.0 ∙ omega arith

get_kv-print :
    (d : ℕ) (e : Bytes × Bytes)
    → IsPrintable d e
    → get_kv (print_pair d e) d 0 ≡ (length e.0, e.0, e.1)
unfolding print_pair mem
get_kv-print d e h =
    let value : skip_blanks (b' ' ∷ e.1) ≡ e.1 = unfold skip_blanks in skip_blanks-value e.1 h.2 in
    get_kv-word d e.0 (b' ' ∷ e.1) h.0 h.1 ∙ rw value refl

-- What a line adds to the map.
put_new : Bytes → Bytes → Map Bytes Bytes → Map Bytes Bytes
put_new key value m = if is_some (StdMap.find key m) then m else StdMap.insert key value m

find-put_new :
    (j key value : Bytes) (m : Map Bytes Bytes)
    → StdMap.find j (put_new key value m)
      ≡ or_some (StdMap.find j m) (if bytes_beq key j then some value else none)
unfolding put_new
find-put_new j key value m = elim (Option-cases (StdMap.find key m)) [
  | inl new ↦ ground (arith, find-insert j key value m, bytes_beq_iff key j, new)
  | inr (old, known) ↦ ground (arith, bytes_beq_iff key j, known)
]

tokenize_into-print :
    (d : ℕ) (e : Bytes × Bytes) (lines : List Bytes) (m : Map Bytes Bytes)
    → IsPrintable d e
    → tokenize_into (print_pair d e ∷ lines) d m ≡ tokenize_into lines d (put_new e.0 e.1 m)
unfolding tokenize_into put_new
tokenize_into-print d e lines m h = rw (find_char-print d e h, get_kv-print d e h, not_npos) refl
  where
    not_npos : (length e.0 == npos) ≡ false
    not_npos = ground (arith, h.1)

find-tokenize_into :
    (d : ℕ) (entries : Map Bytes Bytes) (m : Map Bytes Bytes) (j : Bytes)
    → All (IsPrintable d) entries
    → StdMap.find j (tokenize_into (map (print_pair d) entries) d m)
      ≡ or_some (StdMap.find j m) (StdMap.find j entries)
find-tokenize_into d [] m j h = unfold tokenize_into StdMap.find in ground arith
find-tokenize_into d (e ∷ entries) m j h =
    ap (StdMap.find j) (tokenize_into-print d e (map (print_pair d) entries) m h.0)
    ∙ find-tokenize_into d entries (put_new e.0 e.1 m) j h.1
    ∙ rw (find-put_new j e.0 e.1 m) combine
  where
    combine :
        or_some
          (or_some (StdMap.find j m) (if bytes_beq e.0 j then some e.1 else none))
          (StdMap.find j entries)
        ≡ or_some (StdMap.find j m) (StdMap.find j (e ∷ entries))
    combine = unfold StdMap.find in ground arith

-- For lines with a key, the delimiter, a blank and a value, the keys free of the delimiter and
-- shorter than the largest size_t, the values starting with no blank: tokenize finds for every key
-- the value of its first line, and nothing for a key that has no line.
pub find-tokenize :
    (d : ℕ) (entries : Map Bytes Bytes) (j : Bytes)
    → All (IsPrintable d) entries
    → StdMap.find j (tokenize (map (print_pair d) entries) d) ≡ StdMap.find j entries
unfolding tokenize StdMap.find
find-tokenize d entries j h = find-tokenize_into d entries [] j h
