-- ===== src/Floppy/Opening.antt =====
-- What the constructors of src/floppyIO.cpp make of a file.
use libcernvm.Prelude.{
  ℕ, suc, ◌<◌, ◌≡◌, arith, refl, ap, ◌∙◌, Bool, true, false, [], some, length, replicate,
}
use libcernvm.Prelude.Member.{mem}
use libcernvm.Prelude.Keys.{Bytes}
use libcernvm.Floppy.{
  Floppy, Disk, open_stream, failed_stream, prepared, reset, create, create_with, send, receive,
  take_answer,
}
use libcernvm.Floppy.Image.{write_at, read_at, c_string, until_nul, overwrite-wiped}
use libcernvm.Floppy.Sent.{send_buffer_lem}
use libcernvm.Floppy.Mailbox.{floppy_of, IsImage, reset-floppy_of, zeros-IsImage}

-- A new image on a writable disk.
pub create-IsImage :
    (disk : Disk)
    → disk.writable ≡ true
    → (img : Bytes) × (create disk ≡ floppy_of img) × IsImage img
unfolding create open_stream
create-IsImage disk w = (
  replicate 28672 0,
  rw w (reset-floppy_of [] ∙ ap floppy_of (overwrite-wiped 28672 [] (omega arith))),
  zeros-IsImage 28672 refl,
)

-- the object over a stream that has failed
abbrev lost : Floppy
lost = prepared failed_stream

reset-lost : reset lost ≡ lost
unfolding reset prepared write_at
reset-lost = refl

send-lost : (text : Bytes) → length text < 2147483648 → send text lost ≡ some lost
unfolding send prepared write_at
send-lost text h = rw (send_buffer_lem text h, send) refl

c_string-zeros : (n : ℕ) → c_string (replicate (suc n) 0) ≡ some []
unfolding c_string mem until_nul
c_string-zeros n = refl

receive-lost : receive lost ≡ some ([], lost)
unfolding receive take_answer prepared write_at read_at c_string
receive-lost = rw (c_string-zeros 14334, take_answer) refl

-- Whatever the disk, an image opened with flags that lack F_NOCREATE has a failed stream: a send (of
-- a text whose length is an int) changes nothing and a receive answers with the empty text.
pub create_with_lost :
    (no_init : Bool) (disk : Disk) (text : Bytes)
    → length text < 2147483648
    → (f : Floppy) × (create_with no_init false disk ≡ some f)
      × (send text f ≡ some f)
      × (receive f ≡ some ([], f))
unfolding create_with open_stream
create_with_lost true disk text h = (lost, refl, send-lost text h, receive-lost)
create_with_lost false disk text h = (lost, ap some reset-lost, send-lost text h, receive-lost)
