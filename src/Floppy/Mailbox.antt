-- ===== src/Floppy/Mailbox.antt =====
-- The image of src/floppyIO.cpp as a mailbox: an out box and an in box, each with its control byte.
use libcernvm.Prelude.{
  ℕ, ◌+◌, ◌-◌, ◌≤◌, ◌<◌, ◌≡◌, refl, ap, ◌∙◌, true, false, List, [], ◌∷◌, ◌++◌, Option, none, some,
  arith, length, take, replicate, get_or, ltb, length-replicate, append-nil,
}
use libcernvm.Prelude.Member.{All, mem}
use libcernvm.Prelude.Keys.{Bytes}
use libcernvm.Floppy.{Floppy, prepared, reset, send, receive, take_answer}
use libcernvm.Floppy.Image.{
  Stream, overwrite, part, write_at, read_at, until_nul, c_string, length-overwrite,
  until_nul-zeros, overwrite-wiped, part-zeros, part-overwrite_self, part-overwrite_before,
  length-part,
}
use libcernvm.Floppy.Sent.{
  length-take_le, padded_lem, send_buffer_lem, sent, sent_size, sent_outbox, sent_posted,
  sent_inbox, sent_pending,
}

pub record Mailbox : Type 0 where
  pub outbox : Bytes
  pub posted : ℕ
  pub inbox : Bytes
  pub pending : ℕ

-- What the image holds.
unfoldable pub view : Bytes → Mailbox
view img = record {
  outbox = until_nul (part 14335 0 img);
  posted = get_or (part 1 28670 img) 0 0;
  inbox = until_nul (part 14335 14335 img);
  pending = get_or (part 1 28671 img) 0 0;
}

-- The host's calls.
pub data Call : Type 0 where
  post : Bytes → Call
  fetch : Call
  wipe : Call

-- What a mailbox promises: the answers, and the mailbox afterwards.
unfoldable pub promise : Call → Mailbox → List Bytes × Mailbox
promise (post text) b = ([], record b { outbox = until_nul (take 14334 text); posted = 1 })
promise fetch b = (b.inbox ∷ [], record b { pending = 0 })
promise wipe b = ([], record { outbox = []; posted = 0; inbox = []; pending = 0 })

unfoldable pub promises : List Call → Mailbox → List Bytes × Mailbox
promises [] b = ([], b)
promises (c ∷ calls) b =
    let (first, b') = promise c b in let (rest, b'') = promises calls b' in (first ++ rest, b'')

-- What the code does.
unfoldable pub call : Call → Floppy → Option (List Bytes × Floppy)
call (post text) f = elim (send text f) [ none ↦ none | some f' ↦ some ([], f') ]
call fetch f = elim (receive f) [ none ↦ none | some (text, f') ↦ some (text ∷ [], f') ]
call wipe f = some ([], reset f)

unfoldable pub calls_of : List Call → Floppy → Option (List Bytes × Floppy)
calls_of [] f = some ([], f)
calls_of (c ∷ calls) f = elim (call c f) [
  | none ↦ none
  | some (first, f') ↦ elim (calls_of calls f') [
    | none ↦ none
    | some (rest, f'') ↦ some (first ++ rest, f'')
  ]
]

-- The object over an image of the right size, whose stream is open.
abbrev pub floppy_of : Bytes → Floppy
floppy_of img = prepared (record { bytes = img; failed = false })

-- An image of the right size whose in box holds a terminator.
abbrev pub IsImage : Bytes → Type 0
IsImage img = (length img ≡ 28672) × (mem 0 (part 14335 14335 img) ≡ true)

-- A text whose length is an int.
abbrev pub IsPostable : Call → Type 0
IsPostable (post text) = length text < 2147483648
IsPostable fetch = Unit
IsPostable wipe = Unit

-- A call does to the image what the mailbox promises.
KeepsPromise : Call → Bytes → Type 0
KeepsPromise c img =
    (img' : Bytes) × (call c (floppy_of img) ≡ some ((promise c (view img)).0, floppy_of img'))
    × (view img' ≡ (promise c (view img)).1)
    × IsImage img'

send-floppy_of :
    (text img : Bytes)
    → length text < 2147483648
    → send text (floppy_of img)
      ≡ some
          (floppy_of (sent (take 14334 text ++ replicate (14335 - length (take 14334 text)) 0) img))
unfolding send prepared sent write_at
send-floppy_of text img h = rw (send_buffer_lem text h, send) refl

view-sent :
    (buffer img : Bytes)
    → length buffer ≡ 14335
    → length img ≡ 28672
    → view (sent buffer img) ≡ record (view img) { outbox = until_nul buffer; posted = 1 }
unfolding view
view-sent buffer img fills size =
    rw
      (
        sent_outbox buffer img fills size,
        sent_posted buffer img fills size,
        sent_inbox buffer img fills size,
        sent_pending buffer img fills size,
      )
      refl

post_lem :
    (text img : Bytes) → length text < 2147483648 → IsImage img → KeepsPromise (post text) img
unfolding KeepsPromise call promise
post_lem text img h ok = (sent buffer img, does, shows, (size, same_in))
  where
    copied : Bytes
    copied = take 14334 text

    buffer : Bytes
    buffer = copied ++ replicate (14335 - length copied) 0

    padded : (length buffer ≡ 14335) × (until_nul buffer ≡ until_nul copied)
    padded = padded_lem copied (length-take_le 14334 text)

    size : length (sent buffer img) ≡ 28672
    size = sent_size buffer img padded.0 ok.0

    same_in : mem 0 (part 14335 14335 (sent buffer img)) ≡ true
    same_in = ap (mem 0) (sent_inbox buffer img padded.0 ok.0) ∙ ok.1

    does : call (post text) (floppy_of img) ≡ some ([], floppy_of (sent buffer img))
    does = rw (send-floppy_of text img h, call) refl

    shows : view (sent buffer img) ≡ record (view img) { outbox = until_nul copied; posted = 1 }
    shows =
        view-sent buffer img padded.0 ok.0
        ∙ ap (λ t. record (view img) { outbox = t; posted = 1 }) padded.1

read_at-whole :
    (n o : ℕ) (img : Bytes)
    → o + n ≤ length img
    → read_at n o (record { bytes = img; failed = false })
      ≡ (part n o img, record { bytes = img; failed = false })
unfolding read_at
read_at-whole n o img h = whole (part n o img) (length-part n o img h)
  where
    stream : Stream
    stream = record { bytes = img; failed = false }

    whole :
        (got : Bytes)
        → length got ≡ n
        → ◌≡◌ {A = Bytes × Stream}
            (got ++ replicate (n - length got) 0, record stream { failed = ltb (length got) n })
            (got, stream)
    whole got e = ground (arith, e, none_left, append-nil got)
      where
        none_left : n - length got ≡ 0
        none_left = omega (arith, e)

receive-floppy_of :
    (img : Bytes)
    → IsImage img
    → receive (floppy_of img)
      ≡ some (until_nul (part 14335 14335 img), floppy_of (overwrite 28671 (0 ∷ []) img))
unfolding receive prepared write_at c_string take_answer
receive-floppy_of img ok =
    ap (take_answer (floppy_of img)) (read_at-whole 14335 14335 img (omega (arith, ok.0)))
    ∙ rw (ok.1, take_answer) refl

fetch_lem : (img : Bytes) → IsImage img → KeepsPromise fetch img
unfolding KeepsPromise call promise view
fetch_lem img ok =
    (after, rw (receive-floppy_of img ok, call) refl, shows, (size, ap (mem 0) inbox ∙ ok.1))
  where
    after : Bytes
    after = overwrite 28671 (0 ∷ []) img

    size : length after ≡ 28672
    size = length-overwrite 28671 (0 ∷ []) img (omega (arith, ok.0)) ∙ ok.0

    inbox : part 14335 14335 after ≡ part 14335 14335 img
    inbox = part-overwrite_before 14335 14335 28671 (0 ∷ []) img (omega arith) (omega (arith, ok.0))

    outbox : part 14335 0 after ≡ part 14335 0 img
    outbox = part-overwrite_before 14335 0 28671 (0 ∷ []) img (omega arith) (omega (arith, ok.0))

    posted : part 1 28670 after ≡ part 1 28670 img
    posted = part-overwrite_before 1 28670 28671 (0 ∷ []) img (omega arith) (omega (arith, ok.0))

    pending : part 1 28671 after ≡ 0 ∷ []
    pending = part-overwrite_self 28671 (0 ∷ []) img

    shows : view after ≡ record (view img) { pending = 0 }
    shows = rw (inbox, outbox, posted, pending) refl

view-zeros :
    (k : ℕ)
    → k ≡ 28672
    → view (replicate k 0) ≡ record { outbox = []; posted = 0; inbox = []; pending = 0 }
unfolding view
view-zeros k h =
    rw
      (
        part-zeros 14335 0 k (omega (arith, h)),
        part-zeros 14335 14335 k (omega (arith, h)),
        part-zeros 1 28670 k (omega (arith, h)),
        part-zeros 1 28671 k (omega (arith, h)),
        until_nul-zeros 14335,
      )
      refl

pub zeros-IsImage : (k : ℕ) → k ≡ 28672 → IsImage (replicate k 0)
unfolding mem
zeros-IsImage k h =
    (length-replicate k 0 ∙ h, ap (mem 0) (part-zeros 14335 14335 k (omega (arith, h))) ∙ refl)

pub reset-floppy_of :
    (img : Bytes) → reset (floppy_of img) ≡ floppy_of (overwrite 0 (replicate 28672 0) img)
unfolding reset prepared write_at
reset-floppy_of img = refl

wipe_lem : (img : Bytes) → IsImage img → KeepsPromise wipe img
unfolding KeepsPromise call promise
wipe_lem img ok = (
  replicate 28672 0,
  ap (λ f. some ([], f))
      (reset-floppy_of img ∙ ap floppy_of (overwrite-wiped 28672 img (omega (arith, ok.0)))),
  view-zeros 28672 refl,
  zeros-IsImage 28672 refl,
)

call_lem : (c : Call) (img : Bytes) → IsPostable c → IsImage img → KeepsPromise c img
call_lem (post text) img h ok = post_lem text img h ok
call_lem fetch img h ok = fetch_lem img ok
call_lem wipe img h ok = wipe_lem img ok

-- From an image of the right size whose in box holds a terminator, behind an open stream that does
-- not fail, the code's answers and the state of the boxes after any sequence of sends (of texts
-- whose length is an int), receives and resets are those that the mailbox promises: a text is cut
-- at 14334 bytes, a send raises one control byte, a receive clears the other and answers with the
-- in box, and no call leaves its own part of the image, which keeps its size. The boxes and the control
-- bytes are where the constructors put them: the out box at 0, the in box at 14335, and the control
-- bytes at 28670 and 28671, these three one byte before the places that the comments of the source
-- give.
pub calls_of_refines :
    (calls : List Call) (img : Bytes)
    → All IsPostable calls
    → IsImage img
    → (img' : Bytes) × (calls_of calls (floppy_of img)
        ≡ some ((promises calls (view img)).0, floppy_of img'))
      × (view img' ≡ (promises calls (view img)).1)
      × IsImage img'
unfolding calls_of promises KeepsPromise
calls_of_refines [] img h ok = (img, refl, refl, ok)
calls_of_refines (c ∷ calls) img h ok =
    let (next, does, shows, ok') = call_lem c img h.0 ok in
    let (last, does', shows', ok'') = calls_of_refines calls next h.1 ok' in
    (
      last,
      rw (does, calls_of)
          (rw does' (
            ap (λ b. some ((promise c (view img)).0 ++ (promises calls b).0, floppy_of last))
              shows)),
      shows' ∙ ap (λ b. (promises calls b).1) shows,
      ok'',
    )
