-- ===== src/ContextIso/Layout.antt =====
-- The directory of the images of src/contextiso.cpp.
use libcernvm.Prelude.{
  ℕ, suc, ◌+◌, ◌<◌, ◌≡◌, ap, ◌∙◌, false, [], ◌∷◌, none, some, arith, if◌then◌else◌, ◌==◌, length,
}
use libcernvm.Prelude.Keys.{Bytes, bytes_beq}
use libcernvm.ContextIso.{Disk, bytes_at}
use libcernvm.ContextIso.Reader.{find_record}

find_record-step :
    (fuel : ℕ) (m : Disk) (place size room : ℕ) (stored name : Bytes)
    → m place ≡ suc size
    → m (place + 32) ≡ room
    → bytes_at m (place + 33) room ≡ stored
    → find_record (suc fuel) m place name
      ≡ (if bytes_beq stored name then some place else find_record fuel m (place + suc size) name)
unfolding find_record
find_record-step fuel m place size room stored name sized roomy named =
    let same : bytes_at m (place + 33) (m (place + 32)) ≡ stored =
      ap (bytes_at m (place + 33)) roomy ∙ named in
    ap
      (λ b.
        if m place == 0
        then none
        else if bytes_beq b name
        then some place
        else find_record fuel m (place + m place) name)
      same
    ∙ ap
        (λ n.
          if n == 0
          then none
          else if bytes_beq stored name
          then some place
          else find_record fuel m (place + n) name)
        sized
    ∙ ap
        (λ b.
          if b
          then none
          else if bytes_beq stored name
          then some place
          else find_record fuel m (place + suc size) name)
        some_size
  where
    some_size : (suc size == 0) ≡ false
    some_size = ground arith

find_record-end :
    (fuel : ℕ) (m : Disk) (place : ℕ) (name : Bytes)
    → m place ≡ 0
    → find_record (suc fuel) m place name ≡ none
unfolding find_record
find_record-end fuel m place name h = ground (arith, h)

-- A directory with one file behind the records of itself and of its parent.
pub record Layout (m : Disk) (stored : Bytes) : Type 0 where
  pub self_size : m 47104 ≡ 34
  pub self_room : m 47136 ≡ 1
  pub self_name : bytes_at m 47137 1 ≡ 0 ∷ []
  pub parent_size : m 47138 ≡ 34
  pub parent_room : m 47170 ≡ 1
  pub parent_name : bytes_at m 47171 1 ≡ 1 ∷ []
  pub file_size : m 47172 ≡ 46
  pub file_room : m 47204 ≡ 12
  pub file_name : bytes_at m 47205 12 ≡ stored
  pub end : m 47218 ≡ 0

pub find_record-Layout :
    (m : Disk) (stored name : Bytes)
    → Layout m stored
    → 1 < length name
    → find_record 60 m 47104 name ≡ (if bytes_beq stored name then some 47172 else none)
unfolding bytes_beq
find_record-Layout m stored [] l long = absurd (omega (arith, long))
find_record-Layout m stored (x ∷ []) l long = absurd (omega (arith, long))
find_record-Layout m stored (x ∷ y ∷ name) l long =
    let w = x ∷ y ∷ name in
    let self = find_record-step 59 m 47104 33 1 (0 ∷ []) w l.self_size l.self_room l.self_name in
    let parent =
      find_record-step 58 m 47138 33 1 (1 ∷ []) w l.parent_size l.parent_room l.parent_name in
    let file = find_record-step 57 m 47172 45 12 stored w l.file_size l.file_room l.file_name in
    let other : (c : ℕ) → bytes_beq (c ∷ []) w ≡ false = λ c. ground arith in
    self
    ∙ ap (λ b. if b then some 47104 else find_record 59 m 47138 w) (other 0)
    ∙ parent
    ∙ ap (λ b. if b then some 47138 else find_record 58 m 47172 w) (other 1)
    ∙ file
    ∙ ap (λ o. if bytes_beq stored w then some 47172 else o) (find_record-end 56 m 47218 w l.end)
