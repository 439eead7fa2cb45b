-- ===== src/Utilities/Arguments.antt =====
-- splitArguments of src/Utilities.cpp: the words of a command line, with quotes, and the array of
-- pointers that they are handed out in. The list of words is static: it outlives the call.
pub mod Words
pub mod Buffer
mod Open
use libcernvm.Prelude.{
  ℕ, zero, suc, ◌+◌, ◌-◌, Bool, true, false, not, ◌&&◌, ◌||◌, List, [], ◌∷◌, ◌++◌, Option, none,
  some, if◌then◌else◌, length, set, ltb, leb, ◌==◌,
}
use libcernvm.Prelude.Keys.{Bytes}
use libcernvm.Utilities.Text.Positions.{npos, find_char, cut}

-- nextChar: a blank, a single quote or a double quote.
pub data Until : Type 0 where
  blank : Until
  single : Until
  double : Until

abbrev is_blank : Until → Bool
is_blank blank = true
is_blank _ = false

abbrev is_single : Until → Bool
is_single single = true
is_single _ = false

abbrev is_double : Until → Bool
is_double double = true
is_double _ = false

-- A round of the loop: it stacks what remains and ends, stacks a word and moves on, moves on behind
-- a quote, or reaches the branch that should never be reached.
pub data Move : Type 0 where
  finish : Bytes → Move
  stack : Bytes → ℕ → Move
  enter : ℕ → Until → Move
  unhandled : Move

unfoldable pub round : Bytes → ℕ → Until → Move
round source i_pos next_char =
    let ws = find_char b' ' source i_pos in
    let dq = find_char b'"' source i_pos in
    let sq = find_char b'\'' source i_pos in
    if ws == npos && (sq == npos && dq == npos)
    then finish (cut i_pos (length source - i_pos) source)
    else if is_blank next_char && (ltb ws dq && ltb ws sq)
    then stack (cut i_pos (ws - i_pos) source) (ws + 1)
    else if is_blank next_char
        && ((ws == npos && not (sq == npos))
            || (ws == npos && not (dq == npos))
            || (ltb sq ws || ltb dq ws))
    then if dq == npos || ltb sq dq then enter (sq + 1) single else enter (dq + 1) double
    else if is_single next_char && not (sq == npos)
    then stack (cut i_pos (sq - i_pos) source) (sq + 2)
    else if is_double next_char && not (dq == npos)
    then stack (cut i_pos (dq - i_pos) source) (dq + 2)
    else unhandled

-- The loop, `none` when the rounds given to it are used up.
unfoldable pub args_loop : ℕ → Bytes → ℕ → Until → List Bytes → Option (List Bytes)
args_loop zero source i_pos next_char args = none
args_loop (suc fuel) source i_pos next_char args = elim (ltb i_pos (length source)) [
  | false ↦ some args
  | true ↦ elim (round source i_pos next_char) [
    | finish chunk ↦ some (args ++ chunk ∷ [])
    | stack chunk behind ↦ args_loop fuel source behind blank (args ++ chunk ∷ [])
    | enter behind quote ↦ args_loop fuel source behind quote args
    | unhandled ↦ args_loop fuel source i_pos next_char args
  ]
]

-- A pointer into the words, or NULL.
abbrev pub Pointer : Type 0
Pointer = Option Bytes

unfoldable pub put_pointer : ℕ → Pointer → List Pointer → Option (List Pointer)
put_pointer i p buffer = if ltb i (length buffer) then some (set buffer i p) else none

-- The loop that hands the words out, and the NULL behind them: the index of the NULL, and the
-- array. `none` is a write outside of the array.
unfoldable pub fill_buffer : List Bytes → ℕ → ℕ → List Pointer → Option (ℕ × List Pointer)
fill_buffer [] i buffer_size buffer = elim (put_pointer i none buffer) [
  | none ↦ none
  | some buffer' ↦ some (i, buffer')
]
fill_buffer (arg ∷ args) i buffer_size buffer = elim (leb buffer_size (i + 1)) [
  | true ↦ elim (put_pointer i none buffer) [ none ↦ none | some buffer' ↦ some (i, buffer') ]
  | false ↦ elim (put_pointer i (some arg) buffer) [
    | none ↦ none
    | some buffer' ↦ fill_buffer args (i + 1) buffer_size buffer'
  ]
]

-- splitArguments: with the static words before the call, the words after it, the number that it
-- answers and the array.
unfoldable pub split_arguments :
    ℕ → Bytes → List Pointer → ℕ → ℕ → List Bytes → Option (List Bytes × ℕ × List Pointer)
split_arguments fuel source buffer buffer_size buffer_offset args =
    elim (args_loop fuel source 0 blank args) [
      | none ↦ none
      | some args' ↦ elim (fill_buffer args' buffer_offset buffer_size buffer) [
        | none ↦ none
        | some (count, buffer') ↦ some (args', count, buffer')
      ]
    ]
