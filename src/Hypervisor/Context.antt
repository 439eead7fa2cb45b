-- ===== src/Hypervisor/Context.antt =====
-- buildContextISO of src/Hypervisor.cpp: the disk that gives a machine its user data. Where the file
-- goes, and whether it opens, is given.
use libcernvm.Prelude.Texts.{codes}
use libcernvm.Prelude.{
  ℕ, ◌+◌, ◌-◌, ◌*◌, ◌/◌, ◌≤◌, ◌<◌, ◌≡◌, refl, ap, ◌∙◌, Bool, true, [], ◌∷◌, ◌++◌, Option, none,
  some, arith, if◌then◌else◌, length, take, length-append, length-replicate, replicate,
}
use libcernvm.Prelude.Keys.{Bytes}
use libcernvm.Prelude.Member.{All}
use libcernvm.Prelude.Binds.{◌>>=◌}
use libcernvm.Ipc.Blocks.{take_all}
use libcernvm.Hypervisor.Codes.{hve_ok, hve_io_error}
use libcernvm.Utilities.Base64.{base64_encode, base64_encode_ptr, base64_decode, encode_loop}
use libcernvm.Utilities.Base64.RoundTrip.{IsByte, base64_decode-base64_encode}
use libcernvm.ContextIso.{Tm, Disk, context_sh, build_simple_cdrom}
use libcernvm.ContextIso.Dates.{IsTime}
use libcernvm.ContextIso.Reader.{read_file}
use libcernvm.ContextIso.Contents.{read_file-build_simple_cdrom}

abbrev pub context_start : Bytes
context_start = codes "EC2_USER_DATA=\""

abbrev pub context_end : Bytes
context_end = codes "\"\nONE_CONTEXT_PATH=\"/var/lib/amiconfig\"\n"

unfoldable pub context_text : Bytes → Bytes
context_text user_data = context_start ++ (base64_encode user_data ++ context_end)

-- The code, and the file that is written with its name
unfoldable pub build_context_iso : Tm → Bytes → Bytes → Bool → Option (ℕ × Option (Bytes × Disk))
build_context_iso now iso user_data opens = do
  image ←
      build_simple_cdrom now (codes "CONTEXT_INFO") context_sh (context_text user_data)
        (length (context_text user_data))
  some (if opens then (hve_ok, some (iso, image)) else (hve_io_error, none))

length-padded :
    (n : ℕ) (chars : Bytes)
    → length chars ≤ n
    → length (chars ++ replicate (n - length chars) b'=') ≤ n
length-padded n chars h =
    let k = n - length chars in
    omega (arith, h, length-append chars (replicate k b'='), length-replicate {A = ℕ} k b'=')

length-base64_encode :
    (bs : Bytes) → All IsByte bs → length (base64_encode bs) ≤ (length bs + 2) / 3 * 4
unfolding base64_encode base64_encode_ptr
length-base64_encode [] h = omega arith
length-base64_encode (b ∷ bs) h =
    length-padded ((length (b ∷ bs) + 2) / 3 * 4) (encode_loop 0 0 (b ∷ bs))
      (base64_decode-base64_encode (b ∷ bs) h).1

-- At a time whose fields are in the ranges of gmtime and whose year has at most four digits, so that the
-- date fits its buffer, when the file opens and the user data has at most 231000 bytes: buildContextISO answers HVE_OK and
-- writes an image in whose CONTEXT.SH;1 a reader finds, between the two texts around it, a code that
-- base64_decode turns into the user data.
pub read_file-build_context_iso :
    (now : Tm) (iso user_data : Bytes)
    → IsTime now
    → now.year < 10000
    → All IsByte user_data
    → length user_data ≤ 231000
    → (m : Disk) × (code : Bytes) × (build_context_iso now iso user_data true
        ≡ some (hve_ok, some (iso, m)))
      × (read_file m (context_sh ++ (59 ∷ 49 ∷ [])) ≡ some (context_start ++ (code ++ context_end)))
      × (base64_decode code ≡ some user_data)
unfolding build_context_iso context_text
read_file-build_context_iso now iso user_data time year bytes short =
    let text = context_text user_data in
    let size : length text ≡ 15 + (length (base64_encode user_data) + 40) =
      length-append context_start (base64_encode user_data ++ context_end)
      ∙ ap (λ n. 15 + n) (length-append (base64_encode user_data) context_end) in
    let (m, built, read) =
      read_file-build_simple_cdrom now (codes "CONTEXT_INFO") text (length text) time year
        (omega arith) in
    (
      m,
      base64_encode user_data,
      rw built refl,
      read
          ∙ ap (λ s. some (take 309248 s)) (take_all text (length text) (omega arith))
          ∙ ap some (
              take_all text 309248
                (omega (arith, size, short, length-base64_encode user_data bytes))),
      (base64_decode-base64_encode user_data bytes).0,
    )
