-- ===== src/VBox/Probes/Tests.antt =====
-- Logs of a machine for src/Hypervisor/Virtualbox/VBoxProbes.cpp.
use libcernvm.Prelude.Texts.{codes}
use libcernvm.Prelude.{
  ◌<◌, ◌≡◌, refl, true, false, [], ◌∷◌, ◌++◌, none, some, arith, length, ltb→lt, replicate, ltb,
}
use libcernvm.Prelude.Keys.{Bytes, bytes_beq}
use libcernvm.Prelude.Member.{mem}
use libcernvm.Floppy.Image.{until_nul}
use libcernvm.Utilities.Numbers.{ston, read_digits}
use libcernvm.Utilities.Text.Positions.{
  find_char, find_text, cut, first_from, text_from, starts_with,
}
use libcernvm.VBox.Probes.{
  LogProbe, fresh_probe, line_of, get_line, named_state, is_saving, second_quotation, note_change,
  component, note_resize, contains_text, note_warning, note_line, line_room, scan, tail_of,
  last_bytes, analyze,
}
use libcernvm.VBox.Probes.Ends.{fits, analyze-ends, analyze-stuck}

-- A machine that runs, and the size of its screen
abbrev log : Bytes
log =
    (b'C' ∷ b'h' ∷ b'a' ∷ b'n' ∷ b'g' ∷ b'i' ∷ b'n' ∷ b'g' ∷ 32 ∷ b't' ∷ b'h' ∷ b'e' ∷ 32 ∷ b'V'
      ∷ b'M' ∷ 32 ∷ b's' ∷ b't' ∷ b'a' ∷ b't' ∷ b'e' ∷ 32 ∷ b'f' ∷ b'r' ∷ b'o' ∷ b'm' ∷ 32 ∷ 39
      ∷ b'A' ∷ 39 ∷ 32 ∷ b't' ∷ b'o' ∷ 32 ∷ 39 ∷ b'R' ∷ b'U' ∷ b'N' ∷ b'N' ∷ b'I' ∷ b'N' ∷ b'G' ∷ 39
      ∷ [])
    ++ (10 ∷ codes "Display::handleDisplayResize(): w=640 h=480 bpp=32 ")

abbrev running : LogProbe
running = record {
  has_state = true;
  state = 5;
  has_failures = false;
  failures = 0;
  has_resolution_change = true;
  res_width = 640;
  res_height = 480;
  res_bpp = 0;
}

log_lem : analyze 3 81920 (some log) ≡ some running
unfolding analyze tail_of last_bytes scan get_line line_of fresh_probe until_nul note_line
    contains_text find_text text_from starts_with note_change second_quotation find_char first_from
    cut is_saving named_state bytes_beq note_resize component ston read_digits mem note_warning
log_lem = refl

log_fits : fits line_room (tail_of 81920 log) ≡ true
unfolding fits tail_of last_bytes
log_fits = refl

analyze-ends_example : (p : LogProbe) × (analyze 500 81920 (some log) ≡ some p)
analyze-ends_example = analyze-ends 500 81920 log log_fits (omega arith)

abbrev long_line : Bytes
long_line = replicate 1023 b'x'

long_one :
    (tail_of 81920 (long_line ++ log) ≡ long_line ++ log)
    × (mem 10 long_line ≡ false)
    × (ltb 1022 (length long_line) ≡ true)
unfolding tail_of last_bytes mem
long_one = (refl, refl, refl)

analyze-stuck_example : analyze 9 81920 (some (long_line ++ log)) ≡ none
analyze-stuck_example =
    analyze-stuck 9 81920 (long_line ++ log) long_line log long_one.0 long_one.1 longer
  where
    longer : line_room < length long_line
    longer = ltb→lt 1022 (length long_line) long_one.2
