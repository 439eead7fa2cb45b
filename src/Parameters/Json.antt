-- ===== src/Parameters/Json.antt =====
-- fromJSON of src/ParameterMap.cpp, on a value of the JSON library: an object with its members in the
-- order of getMemberNames.
use libcernvm.Prelude.{
  ℕ, ◌≡◌, refl, sym, ap, ◌∙◌, Bool, true, not, ◌||◌, ◌&&◌, if◌then◌else◌, List, [], ◌∷◌, ◌++◌,
  Option, some, inl, inr, Bool-cases, arith,
}
use libcernvm.Prelude.Keys.{Bytes, bytes_key, bytes_beq, bytes_beq_iff}
use libcernvm.StdMap
use libcernvm.StdMap.{is_some}
use libcernvm.Parameters.{Entries, Group, Store, subgroup, put_on_map, clear, written}
use libcernvm.Parameters.Names.{find-put_on_map}
use libcernvm.Parameters.Groups.{written-entries}
use libcernvm.Utilities.Numbers.{ntos}

-- The kinds of values that are told apart
mutual
  pub data Json : Type 0 where
    object : Members → Json
    string : Bytes → Json
    int : ℕ → Json
    other : Json

  pub data Members : Type 0 where
    end : Members
    member : Bytes → Json → Members → Members

module _ {W : Type 0} (flush : Entries → W → W) where
  unfoldable pub put_member : Bool → Bytes → Bytes → Store W → Store W
  put_member replace k value s =
      if replace || not (is_some (StdMap.find k s.entries))
      then record s { entries = put_on_map k value s.entries }
      else s

  -- The loop over the members
  unfoldable pub from_members : Group → Bool → Members → Store W → Store W
  from_members g replace Members.end s = s
  from_members g replace (Members.member k (Json.object ms) rest) s =
      let sg = subgroup g k in
      from_members g replace rest (written flush sg (from_members sg true ms s)).0
  from_members g replace (Members.member k (Json.string v) rest) s =
      from_members g replace rest (put_member replace k v s)
  from_members g replace (Members.member k (Json.int n) rest) s =
      from_members g replace rest (put_member replace k (ntos n) s)
  from_members g replace (Members.member k Json.other rest) s = from_members g replace rest s

  unfoldable pub from_json : Group → Members → Bool → Bool → Store W → Store W × Group
  from_json g json clear_before replace s =
      written flush g (from_members g replace json (if clear_before then clear g s else s))

-- The texts and numbers of an object and of the objects inside, in order: whether each replaces what is
-- there, its own name without those of the objects around it, and its text.
unfoldable pub leaves : Bool → Members → List (Bool × Bytes × Bytes)
leaves replace Members.end = []
leaves replace (Members.member k (Json.object ms) rest) = leaves true ms ++ leaves replace rest
leaves replace (Members.member k (Json.string v) rest) = (replace, k, v) ∷ leaves replace rest
leaves replace (Members.member k (Json.int n) rest) = (replace, k, ntos n) ∷ leaves replace rest
leaves replace (Members.member k Json.other rest) = leaves replace rest

-- What a name of the map reads behind those, one after the other
unfoldable pub value_of : Bytes → List (Bool × Bytes × Bytes) → Option Bytes → Option Bytes
value_of j [] old = old
value_of j ((replace, k, text) ∷ ls) old =
    value_of j ls (if bytes_beq k j && (replace || not (is_some old)) then some text else old)

value_of-append :
    (j : Bytes) (ls ks : List (Bool × Bytes × Bytes)) (old : Option Bytes)
    → value_of j (ls ++ ks) old ≡ value_of j ks (value_of j ls old)
unfolding value_of
value_of-append j [] ks old = refl
value_of-append j ((replace, k, text) ∷ ls) ks old =
    value_of-append j ls ks
      (if bytes_beq k j && (replace || not (is_some old)) then some text else old)

module _ {W : Type 0} (flush : Entries → W → W) where
  find-put_member :
      (replace : Bool) (j k text : Bytes) (s : Store W)
      → StdMap.find j (put_member flush replace k text s).entries ≡ (
          if bytes_beq k j && (replace || not (is_some (StdMap.find j s.entries)))
          then some text
          else StdMap.find j s.entries)
  unfolding put_member
  find-put_member replace j k text s = elim (Bool-cases (bytes_beq k j)) [
    | inl same ↦
        let key : k ≡ j = (bytes_beq_iff k j).0 same in
        rw (same, key) (ground (arith, find-put_on_map j j text s.entries, bytes_beq_iff j j))
    | inr differs ↦ ground (arith, find-put_on_map j k text s.entries, differs)
  ]

  from_members-leaves :
      (g : Group) (replace : Bool) (ms : Members) (j : Bytes) (s : Store W)
      → StdMap.find j (from_members flush g replace ms s).entries
        ≡ value_of j (leaves replace ms) (StdMap.find j s.entries)
  unfolding from_members leaves value_of
  from_members-leaves g replace Members.end j s = refl
  from_members-leaves g replace (Members.member k (Json.object ms) rest) j s =
      let sg = subgroup g k in
      let inner = from_members flush sg true ms s in
      from_members-leaves g replace rest j (written flush sg inner).0
      ∙ ap (λ m. value_of j (leaves replace rest) (StdMap.find j m))
          (written-entries flush sg inner)
      ∙ ap (value_of j (leaves replace rest)) (from_members-leaves sg true ms j s)
      ∙ sym (value_of-append j (leaves true ms) (leaves replace rest) (StdMap.find j s.entries))
  from_members-leaves g replace (Members.member k (Json.string v) rest) j s =
      from_members-leaves g replace rest j (put_member flush replace k v s)
      ∙ ap (value_of j (leaves replace rest)) (find-put_member replace j k v s)
  from_members-leaves g replace (Members.member k (Json.int n) rest) j s =
      from_members-leaves g replace rest j (put_member flush replace k (ntos n) s)
      ∙ ap (value_of j (leaves replace rest)) (find-put_member replace j k (ntos n) s)
  from_members-leaves g replace (Members.member k Json.other rest) j s =
      from_members-leaves g replace rest j s

  -- What any full name of the map reads after fromJSON, on whatever group, cleared before or not: the text
  -- of the last member with exactly that name, of the object or of one inside at any depth, that replaces
  -- or found nothing there, and what it read before when there is none. The members of an object inside
  -- always replace. So the names of a group get no prefix, and nor do those of the objects inside.
  pub from_json-leaves :
      (g : Group) (json : Members) (clear_before replace : Bool) (j : Bytes) (s : Store W)
      → StdMap.find j (from_json flush g json clear_before replace s).0.entries
        ≡ value_of j
            (leaves replace json)
            (StdMap.find j (if clear_before then clear g s else s).entries)
  unfolding from_json
  from_json-leaves g json clear_before replace j s =
      let start = if clear_before then clear g s else s in
      ap (StdMap.find j) (written-entries flush g (from_members flush g replace json start))
      ∙ from_members-leaves g replace json j start
