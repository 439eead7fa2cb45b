-- ===== src/LocalConfig/File/Lines.antt =====
-- Reading lines back.
use libcernvm.Prelude.{
  ℕ, zero, suc, ◌≤◌, ◌≡◌, refl, ap, ◌∙◌, false, List, [], ◌∷◌, ◌++◌, some, arith, length,
  length-append,
}
use libcernvm.Prelude.Keys.{Bytes}
use libcernvm.Prelude.Member.{mem, All}
use libcernvm.LocalConfig.File.{break_at, getline, read_lines, lines_of, save_lines, load_lines}

pub break_at-append :
    (d : ℕ) (line rest : Bytes) → mem d line ≡ false → break_at d (line ++ d ∷ rest) ≡ (line, rest)
unfolding break_at mem
break_at-append d [] rest h = ground arith
break_at-append d (c ∷ line) rest h = ground (arith, break_at-append d line rest)

pub break_at_end : (d : ℕ) (line : Bytes) → mem d line ≡ false → break_at d line ≡ (line, [])
unfolding break_at mem
break_at_end d [] h = refl
break_at_end d (c ∷ line) h = ground (arith, break_at_end d line)

pub getline-append :
    (d : ℕ) (line rest : Bytes)
    → mem d line ≡ false
    → getline d (line ++ d ∷ rest) ≡ some (line, rest)
unfolding getline
getline-append d [] rest h = ap some (break_at-append d [] rest h)
getline-append d (c ∷ line) rest h = ap some (break_at-append d (c ∷ line) rest h)

pub read_lines-append :
    (fuel : ℕ) (line rest : Bytes)
    → mem b'\n' line ≡ false
    → read_lines (suc fuel) (line ++ b'\n' ∷ rest) ≡ line ∷ read_lines fuel rest
unfolding read_lines
read_lines-append fuel line rest h = rw (getline-append b'\n' line rest h, read_lines) refl

-- A line of a list file holds no newline.
abbrev pub IsLine : Bytes → Type 0
IsLine line = mem b'\n' line ≡ false

read_lines-save_lines :
    (lines : List Bytes) (fuel : ℕ)
    → All IsLine lines
    → length (save_lines lines) ≤ fuel
    → read_lines fuel (save_lines lines) ≡ lines
unfolding save_lines
read_lines-save_lines [] zero a h = unfold read_lines in refl
read_lines-save_lines [] (suc fuel) a h = unfold read_lines getline in refl
read_lines-save_lines (line ∷ lines) zero a h =
    absurd (omega (arith, length-append line (b'\n' ∷ save_lines lines)))
read_lines-save_lines (line ∷ lines) (suc fuel) a h =
    read_lines-append fuel line (save_lines lines) a.0
    ∙ ap (◌∷◌ line) (
        read_lines-save_lines lines fuel a.1
          (omega (arith, length-append line (b'\n' ∷ save_lines lines))))

-- loadLines gives back the lines that saveLines wrote, empty ones too.
pub load_lines-save_lines :
    (lines : List Bytes) → All IsLine lines → load_lines (save_lines lines) ≡ lines
unfolding load_lines lines_of
load_lines-save_lines lines a = read_lines-save_lines lines _ a (omega arith)
