-- ===== src/Utilities/Arguments/Open.antt =====
-- A command line whose double quote stays open, in splitArguments of src/Utilities.cpp.
use libcernvm.Prelude.{
  ℕ, zero, suc, ◌+◌, ◌≤◌, ◌<◌, ◌≡◌, refl, true, false, List, [], ◌∷◌, none, inl, inr, arith, length,
  ltb, ◌==◌, Bool-cases,
}
use libcernvm.Prelude.Member.{mem}
use libcernvm.Prelude.Keys.{Bytes}
use libcernvm.Utilities.Text.Positions.{npos, first_from, first_from-absent, find_char}
use libcernvm.Utilities.Arguments.{blank, double, enter, unhandled, round, args_loop}

first_from-present :
    (c : ℕ) (s : Bytes) (at : ℕ)
    → mem c s ≡ true
    → at + length s ≤ npos
    → at ≤ first_from c s at × first_from c s at < npos
unfolding first_from mem
first_from-present c [] at h size = ground arith
first_from-present c (x ∷ s) at h size = elim (Bool-cases (x == c)) [
  | inl here ↦ rw here (omega arith, omega arith)
  | inr there ↦
      let rest = first_from-present c s (suc at) (ground (arith, there)) (omega arith) in
      rw there (omega (arith, rest.0), rest.1)
]

inside : (s : Bytes) → mem b' ' s ≡ true → ltb 1 (length (b'"' ∷ s)) ≡ true
unfolding mem
inside [] spaced = ground (arith, spaced)
inside (x ∷ s) spaced = ground arith

-- Behind a double quote that opens a command line and is never closed, with a blank behind it, a
-- round changes nothing.
module _ (s : Bytes) (open_quote : mem b'"' s ≡ false) (spaced : mem b' ' s ≡ true)
    (size : length s < 18446744073709551614) where
  blank_behind : (1 ≤ first_from b' ' s 1) × (first_from b' ' s 1 < npos)
  blank_behind = first_from-present b' ' s 1 spaced (omega arith)

  round-open : round (b'"' ∷ s) 1 double ≡ unhandled
  unfolding round find_char
  round-open = ground (arith, blank_behind, first_from-absent b'"' s 1 open_quote)

  round-first : round (b'"' ∷ s) 0 blank ≡ enter 1 double
  unfolding round find_char first_from
  round-first = ground (arith, blank_behind)

  args_loop-open : (fuel : ℕ) (args : List Bytes) → args_loop fuel (b'"' ∷ s) 1 double args ≡ none
  unfolding args_loop
  args_loop-open zero args = refl
  args_loop-open (suc fuel) args =
      rw (inside s spaced, round-open, args_loop) (args_loop-open fuel args)

-- A command line that starts with a double quote, has no other and has a blank, and that a
-- std::string can hold: however many rounds are given to it, the loop of splitArguments does not end.
args_loop-unclosed :
    (fuel : ℕ) (s : Bytes) (args : List Bytes)
    → mem b'"' s ≡ false
    → mem b' ' s ≡ true
    → length s < 18446744073709551614
    → args_loop fuel (b'"' ∷ s) 0 blank args ≡ none
unfolding args_loop
args_loop-unclosed zero s args open_quote spaced size = refl
args_loop-unclosed (suc fuel) s args open_quote spaced size =
    rw (first, round-first s open_quote spaced size, args_loop)
      (args_loop-open s open_quote spaced size fuel args)
  where
    first : ltb 0 (length (b'"' ∷ s)) ≡ true
    first = ground arith
