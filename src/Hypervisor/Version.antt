-- ===== src/Hypervisor/Version.antt =====
-- HypervisorVersion of src/Hypervisor.cpp. What the regular expression finds in a text is a
-- parameter of `set`.
use libcernvm.Prelude.{
  ℕ, ◌≡◌, Bool, true, false, not, ◌&&◌, [], Option, none, some, arith, if◌then◌else◌, ltb, ◌==◌,
}
use libcernvm.Prelude.Keys.{Bytes}

pub record Version : Type 0 where
  pub major : ℕ
  pub minor : ℕ
  pub build : ℕ
  pub revision : ℕ
  pub misc : Bytes
  pub ver_string : Bytes
  pub is_defined : Bool

-- The groups of a match.
pub record Match : Type 0 where
  pub whole : Bytes
  pub numbers : ℕ × ℕ × ℕ × ℕ
  pub rest : Bytes

unfoldable pub set : (Bytes → Option Match) → Bytes → Version
set regex_match version = elim (regex_match version) [
  | none ↦ record {
    major = 0;
    minor = 0;
    build = 0;
    revision = 0;
    misc = [];
    ver_string = [];
    is_defined = false;
  }
  | some found ↦ record {
    major = found.numbers.0;
    minor = found.numbers.1;
    build = found.numbers.2;
    revision = found.numbers.3;
    misc = found.rest;
    ver_string = found.whole;
    is_defined = true;
  }
]

-- The answer of `compare`: -1, 0 or 1.
pub data Answer : Type 0 where
  minus_one : Answer
  nought : Answer
  one : Answer

unfoldable pub larger_wins : ℕ → ℕ → Answer
larger_wins this version = if ltb this version then one else minus_one

-- The build numbers decide if both are known, and then the revisions.
unfoldable pub compare_built : Version → Version → Answer
compare_built this version =
    if not (version.build == 0) && not (this.build == 0) && not (version.build == this.build)
    then larger_wins this.build version.build
    else if not (version.revision == 0)
        && not (this.revision == 0)
        && not (version.revision == this.revision)
    then larger_wins this.revision version.revision
    else nought

unfoldable pub compare : Version → Version → Answer
compare this version =
    if version.minor == this.minor && version.major == this.major
    then if version.revision == this.revision && version.build == this.build
      then nought
      else compare_built this version
    else if version.major == this.major
    then larger_wins this.minor version.minor
    else larger_wins this.major version.major

unfoldable pub compare_str : (Bytes → Option Match) → Version → Bytes → Answer
compare_str regex_match this version = compare this (set regex_match version)

unfoldable pub negate : Answer → Answer
negate minus_one = one
negate nought = nought
negate one = minus_one

larger_wins-swap : (a b : ℕ) → (b == a) ≡ false → larger_wins b a ≡ negate (larger_wins a b)
unfolding larger_wins negate
larger_wins-swap a b h = ground arith

compare_built-swap : (a b : Version) → compare_built b a ≡ negate (compare_built a b)
unfolding compare_built negate
compare_built-swap a b =
    ground (arith, larger_wins-swap a.build b.build, larger_wins-swap a.revision b.revision)

-- Two versions compared the other way round give the opposite answer.
pub compare-swap : (a b : Version) → compare b a ≡ negate (compare a b)
unfolding compare negate
compare-swap a b = ground (
  arith,
  larger_wins-swap a.minor b.minor,
  larger_wins-swap a.major b.major,
  compare_built-swap a b,
)
