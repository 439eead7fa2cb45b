-- ===== src/VBox/Probes/Depth.antt =====
-- The depth of colours that src/Hypervisor/Virtualbox/VBoxProbes.cpp reads.
use libcernvm.Prelude.Texts.{codes}
use libcernvm.Prelude.{
  ℕ, zero, suc, ◌+◌, ◌-◌, ◌≡◌, refl, sym, ap, ◌∙◌, Bool, true, false, ◌||◌, [], ◌∷◌, Option, none,
  some, inl, inr, arith, if◌then◌else◌, ◌==◌, drop, take, Bool-cases, Option-cases,
}
use libcernvm.Prelude.Keys.{Bytes}
use libcernvm.Prelude.Member.{mem}
use libcernvm.Floppy.Image.{until_nul}
use libcernvm.Utilities.Text.Positions.{
  npos, find_char, find_text, cut, starts_with, drop-add, text_from-found,
}
use libcernvm.Utilities.Numbers.{ston, read_digits}
use libcernvm.VBox.Probes.{
  LogProbe, LogStream, fresh_probe, get_line, note_change, second_quotation, component, note_resize,
  note_warning, note_line, scan, analyze, line_room, change_text, resize_text, tail_of,
}

ston-letter : (n : ℕ) (s : Bytes) → ston (take n (b'p' ∷ s)) ≡ 0
unfolding ston read_digits mem
ston-letter zero s = refl
ston-letter (suc n) s = refl

bpp_mark-drop :
    (s : Bytes) → starts_with (codes "bpp=") s ≡ true → (rest : Bytes) × (drop 2 s ≡ b'p' ∷ rest)
unfolding starts_with
bpp_mark-drop [] h = absurd (ground (arith, h))
bpp_mark-drop (x ∷ []) h = absurd (ground (arith, h))
bpp_mark-drop (x ∷ y ∷ []) h = absurd (ground (arith, h))
bpp_mark-drop (x ∷ y ∷ z ∷ s) h =
    let is_p : z ≡ b'p' = ground (arith, h) in (s, ap (λ c. c ∷ s) is_p)

bpp-zero : (line : Bytes) (start n : ℕ) → component (codes "bpp=") 4 line start ≡ some n → n ≡ 0
unfolding component cut find_text
bpp-zero line start n h =
    let mark : Bytes = codes "bpp=" in
    let q = find_text mark line start in
    let q_end = find_char 32 line q in
    elim (Bool-cases (q == npos)) [
      | inl nowhere ↦ absurd (ground (arith, h, nowhere))
      | inr found ↦ elim (Bool-cases (q_end == npos)) [
        | inl no_blank ↦ absurd (ground (arith, h, found, no_blank))
        | inr blank ↦
            let (k, is_at, is_mark) =
              text_from-found mark (drop start line) start (ground (arith, found)) in
            let (rest, letter) = bpp_mark-drop (drop k (drop start line)) is_mark in
            let there : drop q line ≡ drop k (drop start line) =
              ap (λ m. drop m line) is_at ∙ sym (drop-add start k line) in
            let behind : drop (q + 2) line ≡ b'p' ∷ rest =
              sym (drop-add q 2 line) ∙ ap (drop 2) there ∙ letter in
            let read : ston (take (q_end - q - 4) (drop (q + 2) line)) ≡ n =
              ground (arith, h, found, blank) in
            sym read
            ∙ ap (λ l. ston (take (q_end - q - 4) l)) behind
            ∙ ston-letter (q_end - q - 4) rest
      ]
    ]

note_resize-bpp :
    (line : Bytes) (start : ℕ) (p : LogProbe)
    → p.res_bpp ≡ 0
    → (note_resize line start p).res_bpp ≡ 0
unfolding note_resize
note_resize-bpp line start p h = elim (Option-cases (component (codes "w=") 2 line start)) [
  | inl no_w ↦ ground (arith, h, no_w)
  | inr (w, is_w) ↦ elim (Option-cases (component (codes "h=") 2 line start)) [
    | inl no_h ↦ ground (arith, h, is_w, no_h)
    | inr (height, is_h) ↦ elim (Option-cases (component (codes "bpp=") 4 line start)) [
      | inl no_bpp ↦ ground (arith, h, is_w, is_h, no_bpp)
      | inr (n, is_bpp) ↦ ground (arith, is_w, is_h, is_bpp, bpp-zero line start n is_bpp)
    ]
  ]
]

note_line-bpp :
    (b : Bool) (line : Bytes) (p : LogProbe) → p.res_bpp ≡ 0 → (note_line b line p).0.res_bpp ≡ 0
unfolding note_line note_change note_warning
note_line-bpp b line p h =
    elim (Option-cases (second_quotation line (find_text change_text line 0))) [
      | inl unquoted ↦
          ground (arith, h, unquoted, note_resize-bpp line (find_text resize_text line 0) p)
      | inr (name, quoted) ↦
          ground (arith, h, quoted, note_resize-bpp line (find_text resize_text line 0) p)
    ]

scan-bpp :
    (fuel : ℕ) (s : LogStream) (b : Bool) (p p' : LogProbe)
    → p.res_bpp ≡ 0
    → scan fuel s b p ≡ some p'
    → p'.res_bpp ≡ 0
unfolding scan
scan-bpp zero s b p p' h e = cc
scan-bpp (suc fuel) s b p p' h e = elim (Bool-cases s.eof) [
  | inl ended ↦ ground (arith, h, e, ended)
  | inr on ↦
      let read = get_line line_room s in
      let noted = note_line b (until_nul read.0) p in
      scan-bpp fuel (if noted.1 then record (read.1) { rest = [] } else read.1) (b || noted.1)
        noted.0 p' (note_line-bpp b (until_nul read.0) p h) (ground (arith, e, on))
]

-- Whatever the log, analyze finds no depth of colours: the depth in its result is 0.
pub analyze-bpp :
    (fuel tail_size : ℕ) (log : Option Bytes) (p : LogProbe)
    → analyze fuel tail_size log ≡ some p
    → p.res_bpp ≡ 0
unfolding analyze fresh_probe
analyze-bpp fuel tail_size none p h = ground (arith, h)
analyze-bpp fuel tail_size (some text) p h =
    scan-bpp fuel (record { rest = tail_of tail_size text; eof = false; failed = false }) false
      fresh_probe p refl h
