-- ===== src/Floppy/Tests.antt =====
-- The floppy image at work.
use libcernvm.Prelude.Texts.{codes}
use libcernvm.Prelude.{◌≡◌, refl, true, List, [], ◌∷◌, some, arith, replicate}
use libcernvm.Prelude.Keys.{Bytes}
use libcernvm.Floppy.{Disk}
use libcernvm.Floppy.Image.{overwrite}
use libcernvm.Floppy.Mailbox.{
  Call, post, fetch, calls_of, calls_of_refines, promises, view, floppy_of, IsImage, zeros-IsImage,
}

abbrev blank : Bytes
blank = replicate 28672 0

abbrev hello : Bytes
hello = codes "hi"

abbrev exchange : List Call
exchange = post hello ∷ fetch ∷ []

overwrite_grows : overwrite 3 hello (7 ∷ []) ≡ 7 ∷ 0 ∷ 0 ∷ codes "hi"
unfolding overwrite
overwrite_grows = refl

overwrite_inside : overwrite 1 hello (1 ∷ 2 ∷ 3 ∷ 4 ∷ []) ≡ 1 ∷ b'h' ∷ b'i' ∷ 4 ∷ []
unfolding overwrite
overwrite_inside = refl

calls_of_refines_example :
    (img : Bytes) × (calls_of exchange (floppy_of blank)
      ≡ some ((promises exchange (view blank)).0, floppy_of img))
    × (view img ≡ (promises exchange (view blank)).1)
    × IsImage img
calls_of_refines_example =
    calls_of_refines exchange blank (omega arith, (tt, tt)) (zeros-IsImage 28672 refl)

abbrev shelf : Disk
shelf = record { file = some (1 ∷ []); writable = true }
