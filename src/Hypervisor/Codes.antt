-- ===== src/Hypervisor/Codes.antt =====
-- The answers HVE_… of include/CernVM/Hypervisor.h, as patterns of 32 bits.
use libcernvm.Prelude.{ℕ}

abbrev pub hve_ok : ℕ
hve_ok = 0

abbrev pub hve_io_error : ℕ
hve_io_error = 4294967290

abbrev pub hve_external_error : ℕ
hve_external_error = 4294967289

abbrev pub hve_invalid_state : ℕ
hve_invalid_state = 4294967288

abbrev pub hve_control_error : ℕ
hve_control_error = 4294967293

abbrev pub hve_not_found : ℕ
hve_not_found = 4294967287

abbrev pub hve_not_validated : ℕ
hve_not_validated = 4294967284

abbrev pub hve_usage_error : ℕ
hve_usage_error = 4294967197

abbrev pub hve_query_error : ℕ
hve_query_error = 4294967291

abbrev pub hve_already_exists : ℕ
hve_already_exists = 2

abbrev pub hve_delete_error : ℕ
hve_delete_error = 4294967292
