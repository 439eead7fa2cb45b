-- ===== src/Parameters/Numbers.antt =====
-- getNum<int> and setNum<int> of src/ParameterMap.cpp.
use libcernvm.Prelude.{ℕ, ◌<◌, ◌≡◌, ◌++◌, Option, none, some, arith, if◌then◌else◌}
use libcernvm.Prelude.Keys.{Bytes, bytes_key, ◌==◌}
use libcernvm.StdMap
use libcernvm.Parameters.{Entries, Group, Store, set}
use libcernvm.Parameters.Groups.{set-find}
use libcernvm.Utilities.Numbers.{ston, ntos}
use libcernvm.Utilities.Numbers.Printed.{ston-ntos}

unfoldable pub num_or : Option Bytes → ℕ → ℕ
num_or none default = default
num_or (some text) default = ston text

unfoldable pub get_num_or : Group → Entries → Bytes → ℕ → ℕ
get_num_or g m kname default = num_or (StdMap.find (g.prefix ++ kname) m) default

module _ {W : Type 0} (flush : Entries → W → W) where
  unfoldable pub set_num : Group → Bytes → ℕ → Store W → Store W × Group
  set_num g kname value s = set flush g kname (ntos value) s

  -- After setNum of an int by whatever group, locked or not, getNum<int> of each group gives the int
  -- where its full name is the one that was set, and what it gave before everywhere else.
  pub get_num_or-set_num :
      (g other : Group) (name k : Bytes) (n default : ℕ) (s : Store W)
      → n < 4294967296
      → get_num_or other (set_num g name n s).0.entries k default ≡ (
          if (g.prefix ++ name) == (other.prefix ++ k)
          then n
          else get_num_or other s.entries k default)
  unfolding get_num_or set_num num_or
  get_num_or-set_num g other name k n default s h =
      ground (arith, set-find flush g name (ntos n) (other.prefix ++ k) s, ston-ntos n h)
