-- ===== src/VBox/Probes/Ends.antt =====
-- The loop of analyze of src/Hypervisor/Virtualbox/VBoxProbes.cpp, on logs with short lines and long ones.
use libcernvm.Prelude.{
  ℕ, zero, suc, ◌+◌, ◌-◌, ◌%◌, ◌≤◌, ◌<◌, ◌≡◌, refl, ap, ◌∙◌, Bool, true, false, ◌||◌, [], ◌∷◌, ◌++◌,
  none, some, inl, inr, ◌⊎◌, arith, if◌then◌else◌, is_nil, ◌==◌, length, length-drop, Bool-cases,
}
use libcernvm.Prelude.Keys.{Bytes}
use libcernvm.Prelude.Member.{mem}
use libcernvm.Floppy.Image.{until_nul}
use libcernvm.VBox.Probes.{
  LogProbe, LogStream, End, fresh_probe, line_of, get_line, note_line, scan, analyze, line_room,
  tail_of, last_bytes,
}

-- Whether every line fits: the first one into the given room, and the others into a whole buffer.
unfoldable pub fits : ℕ → Bytes → Bool
fits room [] = true
fits zero (c ∷ s) = let rest = fits line_room s in if c == 10 then rest else false
fits (suc room) (c ∷ s) =
    let next = fits line_room s in let on = fits room s in if c == 10 then next else on

-- A line that fits ends with the log, or leaves less of it, whose lines fit too.
line_of-fits :
    (room : ℕ) (s : Bytes)
    → fits room s ≡ true
    → ((line_of room s).2 ≡ End.at_eof)
      ⊎ (((line_of room s).2 ≡ End.newline)
          × (length (line_of room s).1 < length s)
          × (fits line_room (line_of room s).1 ≡ true))
unfolding line_of fits
line_of-fits room [] h = inl refl
line_of-fits zero (c ∷ s) h = elim (Bool-cases (c == 10)) [
  | inl ends ↦ inr (ground (arith, ends), ground (arith, ends), ground (arith, h, ends))
  | inr long ↦ absurd (ground (arith, h, long))
]
line_of-fits (suc room) (c ∷ s) h = elim (Bool-cases (c == 10)) [
  | inl ends ↦ inr (ground (arith, ends), ground (arith, ends), ground (arith, h, ends))
  | inr more ↦ elim (line_of-fits room s (ground (arith, h, more))) [
    | inl last ↦ inl (ground (arith, more, last))
    | inr (ends, shorter, fit) ↦
        inr (ground (arith, more, ends), ground (arith, more, shorter), ground (arith, more, fit))
  ]
]

scan-eof :
    (fuel : ℕ) (s : LogStream) (b : Bool) (p : LogProbe)
    → s.eof ≡ true
    → scan (suc fuel) s b p ≡ some p
unfolding scan
scan-eof fuel s b p h = ground (arith, h)

abbrev at : Bytes → LogStream
at rest = record { rest = rest; eof = false; failed = false }

-- The stream behind a line, which is closed when the machine is being saved.
closed : Bool → LogStream → LogStream
closed saving s = if saving then record s { rest = [] } else s

scan-step :
    (fuel : ℕ) (rest line : Bytes) (s : LogStream) (b : Bool) (p : LogProbe)
    → get_line line_room (at rest) ≡ (line, s)
    → scan (suc fuel) (at rest) b p
      ≡ scan fuel
          (closed (note_line b (until_nul line) p).1 s)
          (b || (note_line b (until_nul line) p).1)
          (note_line b (until_nul line) p).0
unfolding scan closed
scan-step fuel rest line s b p read =
    ap
      (λ (r : Bytes × LogStream).
        scan fuel (closed (note_line b (until_nul r.0) p).1 r.1)
          (b || (note_line b (until_nul r.0) p).1) (note_line b (until_nul r.0) p).0)
      read

scan-fits :
    (fuel : ℕ) (rest : Bytes) (b : Bool) (p : LogProbe)
    → fits line_room rest ≡ true
    → length rest + 2 ≤ fuel
    → (p' : LogProbe) × (scan fuel (at rest) b p ≡ some p')
unfolding get_line closed fits
scan-fits zero rest b p h enough = absurd (omega (arith, enough))
scan-fits (suc zero) rest b p h enough = absurd (omega (arith, enough))
scan-fits (suc (suc fuel)) rest b p h enough =
    let line = (line_of line_room rest).0 in
    let behind = (line_of line_room rest).1 in
    let noted = note_line b (until_nul line) p in
    elim (line_of-fits line_room rest h) [
      | inl last ↦
          let s : LogStream = record { rest = behind; eof = true; failed = is_nil line } in
          let read : get_line line_room (at rest) ≡ (line, s) = rw last refl in
          (
            noted.0,
            scan-step (suc fuel) rest line s b p read
                ∙ scan-eof fuel (closed noted.1 s) (b || noted.1) noted.0
                    (elim (Bool-cases noted.1) [
                      | inl saving ↦ rw saving refl
                      | inr on ↦ rw on refl
                    ]),
          )
      | inr (ends, shorter, fit) ↦
          let read : get_line line_room (at rest) ≡ (line, at behind) = rw ends refl in
          let step = scan-step (suc fuel) rest line (at behind) b p read in
          elim (Bool-cases noted.1) [
            | inl saving ↦
                let (p', done) =
                  scan-fits (suc fuel) [] (b || noted.1) noted.0 refl
                    (omega (arith, enough, shorter)) in
                (
                  p',
                  step
                      ∙ ap (λ c. scan (suc fuel) (closed c (at behind)) (b || noted.1) noted.0)
                          saving
                      ∙ done,
                )
            | inr on ↦
                let (p', done) =
                  scan-fits (suc fuel) behind (b || noted.1) noted.0 fit
                    (omega (arith, enough, shorter)) in
                (
                  p',
                  step
                      ∙ ap (λ c. scan (suc fuel) (closed c (at behind)) (b || noted.1) noted.0) on
                      ∙ done,
                )
          ]
    ]

length-last_bytes : (n : ℕ) (text : Bytes) → length (last_bytes n text) ≤ length text
unfolding last_bytes
length-last_bytes n text = omega (arith, length-drop (length text - n) text)

length-tail_of : (n : ℕ) (text : Bytes) → length (tail_of n text) ≤ length text
unfolding tail_of
length-tail_of n text = ground (
  arith,
  length-last_bytes (length text % 4294967296) text,
  length-last_bytes n text,
  length-last_bytes 2147483648 text,
)

-- analyze comes to an end on a log whose lines, in the part that it reads with the length of the file in an
-- int, are of at most 1022 bytes: two rounds more than the log has bytes are enough.
pub analyze-ends :
    (fuel tail_size : ℕ) (text : Bytes)
    → fits line_room (tail_of tail_size text) ≡ true
    → length text + 2 ≤ fuel
    → (p : LogProbe) × (analyze fuel tail_size (some text) ≡ some p)
unfolding analyze
analyze-ends fuel tail_size text h enough =
    scan-fits fuel (tail_of tail_size text) false fresh_probe h
      (omega (arith, enough, length-tail_of tail_size text))

closed_flags :
    (saving : Bool) (s : LogStream)
    → ((closed saving s).eof ≡ s.eof) × ((closed saving s).failed ≡ s.failed)
unfolding closed
closed_flags true s = (refl, refl)
closed_flags false s = (refl, refl)

-- A stream that has failed, and did not end, gives nothing, for ever.
scan-failed :
    (fuel : ℕ) (s : LogStream) (b : Bool) (p : LogProbe)
    → s.eof ≡ false
    → s.failed ≡ true
    → scan fuel s b p ≡ none
unfolding scan closed get_line
scan-failed zero s b p on failed = refl
scan-failed (suc fuel) s b p on failed =
    let line = (get_line line_room s).0 in
    let s' = (get_line line_room s).1 in
    let noted = note_line b (until_nul line) p in
    let still_on : s'.eof ≡ false = ground (arith, on, failed) in
    let still_failed : s'.failed ≡ true = ground (arith, on, failed) in
    let flags = closed_flags noted.1 s' in
    let next =
      scan-failed fuel (closed noted.1 s') (b || noted.1) noted.0 (flags.0 ∙ still_on)
        (flags.1 ∙ still_failed) in
    ap (λ (c : Bool). if c then some p else scan fuel (closed noted.1 s') (b || noted.1) noted.0) on
    ∙ next

-- A line with no end in the room.
line_of-long :
    (line rest : Bytes) (room : ℕ)
    → mem 10 line ≡ false
    → room < length line
    → (line_of room (line ++ rest)).2 ≡ End.full
unfolding line_of mem
line_of-long [] rest room h long = absurd (omega (arith, long))
line_of-long (c ∷ line) rest zero h long = ground (arith, h)
line_of-long (c ∷ line) rest (suc room) h long =
    ground (arith, h, line_of-long line rest room (ground (arith, h)) (omega (arith, long)))

-- When the part of a log that analyze reads, with the length of the file in an int, starts with a line of
-- more than 1022 bytes, analyze never comes to an end: no number of rounds is enough.
pub analyze-stuck :
    (fuel tail_size : ℕ) (text line rest : Bytes)
    → tail_of tail_size text ≡ line ++ rest
    → mem 10 line ≡ false
    → line_room < length line
    → analyze fuel tail_size (some text) ≡ none
unfolding analyze scan get_line
analyze-stuck fuel tail_size text line rest h one long =
    stuck fuel (tail_of tail_size text)
      (ap (λ t. (line_of line_room t).2) h ∙ line_of-long line rest line_room one long)
  where
    stuck :
        (n : ℕ) (t : Bytes)
        → (line_of line_room t).2 ≡ End.full
        → scan n (at t) false fresh_probe ≡ none
    stuck zero t ends = refl
    stuck (suc n) t ends =
        let s : LogStream = record { rest = (line_of line_room t).1; eof = false; failed = true } in
        let read : get_line line_room (at t) ≡ ((line_of line_room t).0, s) = rw ends refl in
        let noted = note_line false (until_nul (line_of line_room t).0) fresh_probe in
        let flags = closed_flags noted.1 s in
        scan-step n t (line_of line_room t).0 s false fresh_probe read
        ∙ scan-failed n (closed noted.1 s) (false || noted.1) noted.0 flags.0 flags.1
