-- ===== src/Utilities/Tests.antt =====
-- The string functions at work.
use libcernvm.Prelude.Texts.{codes}
use libcernvm.Prelude.{◌+◌, ◌/◌, ◌*◌, ◌≤◌, ◌≡◌, refl, List, [], ◌∷◌, map, none, some, arith, length}
use libcernvm.Prelude.Keys.{Bytes, bytes_key}
use libcernvm.Prelude.Member.{All, mem}
use libcernvm.StdMap
use libcernvm.StdMap.{Map}
use libcernvm.Utilities.Text.{
  url_filename, before, explode_str, explode_loop, trim_split, trim_loop, next_delimiter, skip_trim,
  tokenize, split,
}
use libcernvm.Utilities.Text.Positions.{
  first_from, find_char, starts_with, text_from, find_text, cut,
}
use libcernvm.Utilities.Text.Tokens.{find-tokenize, print_pair, IsPrintable, starts_blank}
use libcernvm.Utilities.Base64.{base64_encode, base64_decode, encode_loop}
use libcernvm.Utilities.Base64.RoundTrip.{base64_decode-base64_encode}
use libcernvm.Utilities.Arguments.{blank, args_loop, round, Pointer}
use libcernvm.Utilities.Arguments.Words.{args_loop-split}
use libcernvm.Utilities.Arguments.Buffer.{IsFilled, fill_buffer_lem}
use libcernvm.Utilities.Clean.{url_encode, unreserved, hex_digit}

-- The character before the question mark is lost.
query_cut : url_filename (codes "ab?q") ≡ b'a' ∷ []
unfolding url_filename before find_char first_from cut
query_cut = refl

-- The second piece runs on behind the separator.
pieces_run_on :
    explode_str (codes "ab,cd,e") (b',' ∷ []) []
    ≡ some ((codes "ab") ∷ (codes "cd,e") ∷ (b'e' ∷ []) ∷ [])
unfolding explode_str explode_loop find_text text_from starts_with cut
pieces_run_on = refl

parts : trim_split (codes "key  a b") (b' ' ∷ []) (b' ' ∷ []) 2 ≡ (codes "key") ∷ (codes "a b") ∷ []
unfolding trim_split trim_loop next_delimiter skip_trim find_char first_from cut mem
parts = refl

-- What stands before a quote is lost.
quote_cut : args_loop 9 (codes "a\"b c\"") 0 blank [] ≡ some ((codes "b c") ∷ [])
unfolding args_loop round find_char first_from cut
quote_cut = refl

escaped : url_encode (codes "a b/") ≡ codes "a%20b%2F"
unfolding url_encode unreserved hex_digit mem
escaped = refl

abbrev listing : Map Bytes Bytes
listing = (b'k' ∷ [], b'v' ∷ []) ∷ (b'k' ∷ [], b'w' ∷ []) ∷ (b'j' ∷ [], []) ∷ []

listing-IsPrintable : All (IsPrintable b':') listing
unfolding mem starts_blank
listing-IsPrintable =
    ((refl, omega arith, refl), ((refl, omega arith, refl), ((refl, omega arith, refl), tt)))

find-tokenize_example :
    StdMap.find (b'k' ∷ []) (tokenize (map (print_pair b':') listing) b':')
    ≡ StdMap.find (b'k' ∷ []) listing
find-tokenize_example = find-tokenize b':' listing (b'k' ∷ []) listing-IsPrintable

abbrev block : Bytes
block = 0 ∷ 255 ∷ 7 ∷ 9 ∷ []

base64_decode-base64_encode_example :
    (base64_decode (base64_encode block) ≡ some block)
    × (length (encode_loop 0 0 block) ≤ (length block + 2) / 3 * 4)
    × ((length block + 2) / 3 * 4 ≤ length (encode_loop 0 0 block) + 2)
base64_decode-base64_encode_example =
    base64_decode-base64_encode block (omega arith, (omega arith, (omega arith, (omega arith, tt))))

abbrev command : Bytes
command = codes "ls -l a"

args_loop-split_example :
    args_loop 8 command 0 blank ((b'x' ∷ []) ∷ []) ≡ some ((b'x' ∷ []) ∷ split command b' ')
args_loop-split_example =
    args_loop-split command ((b'x' ∷ []) ∷ []) (omega arith) (unfold mem in (refl, refl))

abbrev array : List Pointer
array = none ∷ none ∷ none ∷ []

fill_buffer_lem_example : IsFilled ((b'a' ∷ []) ∷ (b'b' ∷ []) ∷ (b'c' ∷ []) ∷ []) 1 3 array
fill_buffer_lem_example =
    fill_buffer_lem ((b'a' ∷ []) ∷ (b'b' ∷ []) ∷ (b'c' ∷ []) ∷ []) 1 3 array (omega arith)
      (omega arith)
