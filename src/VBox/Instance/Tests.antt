-- ===== src/VBox/Instance/Tests.antt =====
-- A table of sessions of src/Hypervisor/Virtualbox/VBoxInstance.cpp that is cleaned up.
use libcernvm.Prelude.Texts.{codes}
use libcernvm.Prelude.{ℕ, ◌+◌, ◌≤◌, ◌≡◌, refl, false, [], ◌∷◌, some, arith}
use libcernvm.Prelude.Keys.{Bytes, bytes_key, bytes_beq}
use libcernvm.StdMap
use libcernvm.StdMap.{Map, Unique}
use libcernvm.Parameters.{get, safe_name}
use libcernvm.Hypervisor.Sessions.{Session, text_of}
use libcernvm.Hypervisor.Sessions.Defaults.{vboxid_key}
use libcernvm.Prelude.Member.{mem}
use libcernvm.Utilities.Numbers.{ston, read_digits}
use libcernvm.Parameters.{subgroup}
use libcernvm.Hypervisor.Sessions.{get_num}
use libcernvm.VBox.Instance.{
  Table, listed, is_missing, session_by_vbid, is_registered, clean_sessions,
}
use libcernvm.VBox.Instance.Closing.{close_times, close_times-one_entry}
use libcernvm.VBox.Instance.Removal.{rounds}
use libcernvm.VBox.Instance.Cleaning.{clean_sessions-second_kept}

-- A session with its uuid and the number of its machine
abbrev session : ℕ → ℕ → Session ℕ
session id machine = record {
  parameters = record { prefix = []; locked = false; changed = false; depth = 0 };
  store = record { entries = (vboxid_key, machine ∷ []) ∷ []; world = 0 };
  uuid = id ∷ [];
  state = 0;
  instances = 0;
}

abbrev table : Table ℕ
table = record {
  hv = record {
    sessions =
        (b'a' ∷ [], session b'a' 1)
        ∷ (b'b' ∷ [], session b'b' 2)
        ∷ (b'c' ∷ [], session b'c' 3)
        ∷ [];
    open_sessions = (b'b' ∷ []) ∷ [];
  };
  destroyed = [];
  cleared = [];
  aborted = [];
}

abbrev machines : Map Bytes Bytes
machines = (3 ∷ [], b'm' ∷ []) ∷ []

first_gone : is_registered machines (session b'a' 1) ≡ false
unfolding is_registered text_of get safe_name StdMap.find bytes_beq
first_gone = refl

second_by_vbid : session_by_vbid (2 ∷ []) table.hv.sessions ≡ some (session b'b' 2)
unfolding session_by_vbid text_of get safe_name StdMap.find bytes_beq
second_by_vbid = refl

names_apart :
    (bytes_beq (b'a' ∷ []) (b'b' ∷ []) ≡ false) × (bytes_beq (b'c' ∷ []) (b'b' ∷ []) ≡ false)
unfolding bytes_beq
names_apart = (refl, refl)

two_enough : rounds 2 ≤ 20
unfolding rounds
two_enough = omega arith

clean_sessions-second_kept_example :
    (t : Table ℕ) × (clean_sessions 20 machines 0 table ≡ some t)
    × (StdMap.find (b'b' ∷ []) t.hv.sessions ≡ some (session b'b' 2))
clean_sessions-second_kept_example =
    clean_sessions-second_kept 20 machines table (b'a' ∷ []) (b'b' ∷ []) (session b'a' 1)
      (session b'b' 2) ((b'c' ∷ [], session b'c' 3) ∷ []) refl refl names_apart.0
      ((refl, names_apart.1), tt) first_gone two_enough

table_Unique : Unique table.hv.sessions
unfolding StdMap.find bytes_beq
table_Unique = (refl, (refl, (refl, tt)))

rounds_enough : 3 + rounds 3 ≤ 20
unfolding rounds
rounds_enough = omega arith

-- A session that was opened twice, with a machine that runs
abbrev shared : Session ℕ
shared = record {
  parameters = record { prefix = []; locked = false; changed = false; depth = 0 };
  store = record { entries = (codes "local/state", b'5' ∷ []) ∷ []; world = 0 };
  uuid = b's' ∷ [];
  state = 5;
  instances = 2;
}

abbrev shared_table : Table ℕ
shared_table = record {
  hv = record {
    sessions = (b's' ∷ [], shared) ∷ [];
    open_sessions = (b'o' ∷ []) ∷ (b's' ∷ []) ∷ (b's' ∷ []) ∷ [];
  };
  destroyed = [];
  cleared = [];
  aborted = [];
}

shared_found : StdMap.find (b's' ∷ []) shared_table.hv.sessions ≡ some shared
unfolding StdMap.find bytes_beq
shared_found = refl

shared_runs : is_missing shared ≡ false
unfolding is_missing get_num ston read_digits mem get subgroup StdMap.find bytes_beq
shared_runs = refl

not_listed : listed (b's' ∷ []) ((b'o' ∷ []) ∷ []) ≡ false
unfolding listed bytes_beq
not_listed = refl

close_times-one_entry_example :
    ((close_times 2 (b's' ∷ []) shared_table).hv.open_sessions ≡ (b'o' ∷ []) ∷ (b's' ∷ []) ∷ [])
    × (StdMap.find (b's' ∷ []) (close_times 2 (b's' ∷ []) shared_table).hv.sessions
        ≡ some (record shared { instances = 0 }))
close_times-one_entry_example =
    close_times-one_entry 1 (b's' ∷ []) shared shared_table ((b'o' ∷ []) ∷ []) ((b's' ∷ []) ∷ [])
      shared_found refl refl (omega arith) shared_runs refl not_listed
