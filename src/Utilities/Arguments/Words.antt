-- ===== src/Utilities/Arguments/Words.antt =====
-- The words of a command line without quotes.
use libcernvm.Prelude.{
  ℕ, zero, suc, ◌+◌, ◌-◌, ◌≤◌, ◌<◌, ◌≡◌, refl, sym, ap, ◌∙◌, true, false, List, [], ◌∷◌, ◌++◌, some,
  inl, inr, ◌⊎◌, arith, length, take, ltb, ◌==◌, ==_iff, Bool-cases, length-append, append-nil,
  append_assoc,
}
use libcernvm.Prelude.Member.{mem, mem-append}
use libcernvm.Prelude.Keys.{Bytes}
use libcernvm.LocalConfig.File.{getline}
use libcernvm.LocalConfig.File.Lines.{break_at-append, break_at_end}
use libcernvm.Ipc.Blocks.{take-append, drop-append, take_all}
use libcernvm.Utilities.Text.{tokens, split}
use libcernvm.Utilities.Text.Positions.{
  npos, first_from, first_from-absent, first_from-word, find_char, cut,
}
use libcernvm.Utilities.Arguments.{blank, finish, stack, round, args_loop}

-- A text has no delimiter, or a first one.
first_word :
    (c : ℕ) (s : Bytes)
    → (mem c s ≡ false) ⊎ ((w : Bytes) × (t : Bytes) × (s ≡ w ++ (c ∷ t)) × (mem c w ≡ false))
unfolding mem
first_word c [] = inl refl
first_word c (x ∷ s) = elim (Bool-cases (x == c)) [
  | inl here ↦ inr ([], s, ap (λ y. y ∷ s) ((==_iff x c).0 here), refl)
  | inr there ↦ elim (first_word c s) [
    | inl absent ↦ inl (ground (arith, there, absent))
    | inr (w, t, e, absent) ↦ inr (x ∷ w, t, ap (◌∷◌ x) e, ground (arith, there, absent))
  ]
]

-- The rounds of a text without quotes, the part before the position aside.
module _ (pre s : Bytes) (size : length (pre ++ s) < npos) where
  find_in_rest : (c : ℕ) → find_char c (pre ++ s) (length pre) ≡ first_from c s (length pre)
  unfolding find_char
  find_in_rest c = rw (drop-append pre s) refl

  cut_in_rest : (n : ℕ) → cut (length pre) n (pre ++ s) ≡ take n s
  unfolding cut
  cut_in_rest n = rw (drop-append pre s) refl

  round-last :
      mem b' ' s ≡ false
      → mem b'"' s ≡ false
      → mem b'\'' s ≡ false
      → round (pre ++ s) (length pre) blank ≡ finish s
  unfolding round
  round-last hs hd hq =
      rw
        (
          find_in_rest b' ',
          find_in_rest b'"',
          find_in_rest b'\'',
          first_from-absent b' ' s (length pre) hs,
          first_from-absent b'"' s (length pre) hd,
          first_from-absent b'\'' s (length pre) hq,
        )
        (ap finish (cut_in_rest _ ∙ take_all s _ (omega (arith, length-append pre s))))

module _ (pre w t : Bytes) (size : length (pre ++ (w ++ (b' ' ∷ t))) < npos) where
  round-word :
      mem b' ' w ≡ false
      → mem b'"' (w ++ (b' ' ∷ t)) ≡ false
      → mem b'\'' (w ++ (b' ' ∷ t)) ≡ false
      → round (pre ++ (w ++ (b' ' ∷ t))) (length pre) blank ≡ stack w (length pre + length w + 1)
  unfolding round
  round-word hs hd hq =
      rw
        (
          find_in_rest pre (w ++ (b' ' ∷ t)) size b' ',
          find_in_rest pre (w ++ (b' ' ∷ t)) size b'"',
          find_in_rest pre (w ++ (b' ' ∷ t)) size b'\'',
          first_from-word b' ' w t (length pre) hs,
          first_from-absent b'"' (w ++ (b' ' ∷ t)) (length pre) hd,
          first_from-absent b'\'' (w ++ (b' ' ∷ t)) (length pre) hq,
        )
        (rw (inside, not_npos) (ap (λ c. stack c (length pre + length w + 1)) chunk))
    where
      inside : ltb (length pre + length w) npos ≡ true
      inside = ground (arith, size, length-append pre (w ++ (b' ' ∷ t)), length-append w (b' ' ∷ t))

      not_npos : (length pre + length w == npos) ≡ false
      not_npos = ground (arith, inside)

      there : length pre + length w - length pre ≡ length w
      there = omega arith

      chunk : cut (length pre) (length pre + length w - length pre) (pre ++ (w ++ (b' ' ∷ t))) ≡ w
      chunk = cut_in_rest pre (w ++ (b' ' ∷ t)) size _ ∙ rw there (take-append w (b' ' ∷ t))

tokens-nil : (d k : ℕ) → tokens d k [] ≡ []
unfolding tokens getline
tokens-nil d zero = refl
tokens-nil d (suc k) = refl

-- A text without quotes.
abbrev pub IsUnquoted : Bytes → Type 0
IsUnquoted s = (mem b'"' s ≡ false) × (mem b'\'' s ≡ false)

IsUnquoted-behind : (w t : Bytes) → IsUnquoted (w ++ (b' ' ∷ t)) → IsUnquoted t
unfolding mem
IsUnquoted-behind w t h = (
  ground (arith, mem-append b'"' w (b' ' ∷ t), h.0),
  ground (arith, mem-append b'\'' w (b' ' ∷ t), h.1),
)

-- The text read so far, with the next word.
past : Bytes → Bytes → Bytes
past pre w = pre ++ (w ++ b' ' ∷ [])

module _ (fuel : ℕ) (pre s : Bytes) (args : List Bytes) (some_left : 0 < length s) where
  more_left : ltb (length pre) (length (pre ++ s)) ≡ true
  more_left = ground (arith, length-append pre s, some_left)

  args_loop-last :
      length (pre ++ s) < npos
      → mem b' ' s ≡ false
      → IsUnquoted s
      → args_loop (suc fuel) (pre ++ s) (length pre) blank args ≡ some (args ++ s ∷ [])
  unfolding args_loop
  args_loop-last size h u = rw (more_left, round-last pre s size h u.0 u.1, args_loop) refl

tokens-last : (d k : ℕ) (s : Bytes) → 0 < length s → mem d s ≡ false → tokens d (suc k) s ≡ s ∷ []
unfolding tokens getline
tokens-last d k [] l h = absurd (omega arith)
tokens-last d k (x ∷ s) l h =
    rw (break_at_end d (x ∷ s) h, tokens) (ap (◌∷◌ (x ∷ s)) (tokens-nil d k))

tokens-word :
    (d k : ℕ) (w t : Bytes) → mem d w ≡ false → tokens d (suc k) (w ++ (d ∷ t)) ≡ w ∷ tokens d k t
unfolding tokens getline
tokens-word d k [] t h = rw (break_at-append d [] t h, tokens) refl
tokens-word d k (x ∷ w) t h = rw (break_at-append d (x ∷ w) t h, tokens) refl

module _ (w t : Bytes) (absent : mem b' ' w ≡ false) where
  some_word : 0 < length (w ++ (b' ' ∷ t))
  some_word = omega (arith, length-append w (b' ' ∷ t))

  past-append : (pre : Bytes) → pre ++ (w ++ (b' ' ∷ t)) ≡ past pre w ++ t
  unfolding past
  past-append pre =
      ap (◌++◌ pre) (sym (append_assoc w (b' ' ∷ []) t)) ∙ sym (append_assoc pre (w ++ b' ' ∷ []) t)

  args_loop-word :
      (fuel : ℕ) (pre : Bytes) (args : List Bytes)
      → length (pre ++ (w ++ (b' ' ∷ t))) < npos
      → IsUnquoted (w ++ (b' ' ∷ t))
      → args_loop (suc fuel) (pre ++ (w ++ (b' ' ∷ t))) (length pre) blank args
        ≡ args_loop fuel (past pre w ++ t) (length (past pre w)) blank (args ++ w ∷ [])
  unfolding args_loop past
  args_loop-word fuel pre args size u =
      rw
        (
          more_left fuel pre (w ++ (b' ' ∷ t)) args some_word,
          round-word pre w t size absent u.0 u.1,
          args_loop,
        )
        (ap (λ src. args_loop fuel src (length pre + length w + 1) blank (args ++ w ∷ []))
            (past-append pre)
          ∙ ap (λ n. args_loop fuel (past pre w ++ t) n blank (args ++ w ∷ [])) behind)
    where
      behind : length pre + length w + 1 ≡ length (pre ++ (w ++ b' ' ∷ []))
      behind = omega (arith, length-append pre (w ++ b' ' ∷ []), length-append w (b' ' ∷ []))

args_loop-done :
    (fuel : ℕ) (pre : Bytes) (args : List Bytes)
    → args_loop (suc fuel) (pre ++ []) (length pre) blank args ≡ some args
unfolding args_loop
args_loop-done fuel pre args = rw (none_left, args_loop) refl
  where
    none_left : ltb (length pre) (length (pre ++ [])) ≡ false
    none_left = ground (arith, length-append pre [])

args_loop-words :
    (fuel k : ℕ) (pre s : Bytes) (args : List Bytes)
    → length s < fuel
    → length s ≤ k
    → length (pre ++ s) < npos
    → IsUnquoted s
    → args_loop fuel (pre ++ s) (length pre) blank args ≡ some (args ++ tokens b' ' k s)
args_loop-words zero k pre s args f c size u = absurd (omega arith)
args_loop-words (suc fuel) k pre [] args f c size u =
    args_loop-done fuel pre args
    ∙ ap some (sym (append-nil args) ∙ ap (◌++◌ args) (sym (tokens-nil b' ' k)))
args_loop-words (suc fuel) zero pre (x ∷ s) args f c size u = absurd (omega arith)
args_loop-words (suc fuel) (suc k) pre (x ∷ s) args f c size u = elim (first_word b' ' (x ∷ s)) [
  | inl absent ↦
      args_loop-last fuel pre (x ∷ s) args (omega arith) size absent u
      ∙ ap (λ ws. some (args ++ ws)) (sym (tokens-last b' ' k (x ∷ s) (omega arith) absent))
  | inr (w, t, e, absent) ↦
      let shorter : length (x ∷ s) ≡ length w + suc (length t) =
        ap length e ∙ length-append w (b' ' ∷ t) in
      let size' : length (pre ++ (w ++ (b' ' ∷ t))) < npos = rw (sym e) size in
      let u' : IsUnquoted (w ++ (b' ' ∷ t)) = rw (sym e) u in
      rw e (
        args_loop-word w t absent fuel pre args size' u'
        ∙ args_loop-words fuel k (past pre w) t (args ++ w ∷ []) (omega arith) (omega arith)
            (rw (sym (past-append w t absent pre)) size') (IsUnquoted-behind w t u')
        ∙ ap some (
            append_assoc args (w ∷ []) (tokens b' ' k t)
            ∙ ap (◌++◌ args) (sym (tokens-word b' ' k w t absent))))
]

-- For a command line without quotes that a std::string can hold, with as many rounds as it has bytes
-- and one more: the loop of splitArguments ends, and leaves the words that the list held before the
-- call, followed by those that split makes of the command line at its blanks.
pub args_loop-split :
    (source : Bytes) (args : List Bytes)
    → length source < npos
    → IsUnquoted source
    → args_loop (suc (length source)) source 0 blank args ≡ some (args ++ split source b' ')
unfolding split
args_loop-split source args size u =
    args_loop-words (suc (length source)) (length source) [] source args (omega arith) (omega arith)
      size u
