-- ===== src/Utilities/Exec.antt =====
-- sysExec of src/Utilities.cpp: the tries of a program, and the answers that they lead to. What runs
-- the program (__sysExec) is a parameter, as is whether the file is there.
use libcernvm.Prelude.Texts.{codes}
use libcernvm.Prelude.{
  ℕ, zero, suc, ◌≡◌, Bool, false, not, ◌&&◌, ◌||◌, List, [], ◌∷◌, Option, none, some, if◌then◌else◌,
  ◌==◌,
}
use libcernvm.Prelude.Keys.{Bytes}
use libcernvm.StdMap.{Map}
use libcernvm.Utilities.Text.Positions.{npos, find_text}

-- Exit codes are ints, here their patterns of 32 bits.
pub record Config : Type 0 where
  pub retries : ℕ
  pub err_strings : Map Bytes ℕ

-- setRetries, handleErrString
unfoldable pub set_retries : ℕ → Config → Config
set_retries r config = record config { retries = r }

-- checkMatchingErrorCode: the code of the first known text that stands in the buffer.
unfoldable pub check_matching_error_code : Bytes → Map Bytes ℕ → ℕ
check_matching_error_code buffer [] = 0
check_matching_error_code buffer ((k, c) ∷ err_strings) =
    if find_text k buffer 0 == npos then check_matching_error_code buffer err_strings else c

abbrev error_words : List Bytes
error_words = (codes "error") ∷ (codes "ERROR") ∷ (codes "Error") ∷ []

unfoldable pub has_any : Bytes → List Bytes → Bool
has_any buffer [] = false
has_any buffer (word ∷ words) = not (find_text word buffer 0 == npos) || has_any buffer words

-- The result of a try, after the look for known texts and for the word "error".
unfoldable pub graded : ℕ → Bytes → ℕ
graded res std_error = if not (res == 255) && has_any std_error error_words then 253 else res

pub record Run : Type 0 where
  pub result : ℕ
  pub raw_std_err : Option Bytes
  pub tries : ℕ

unfoldable pub retry_loop : (ℕ → ℕ × Bytes) → Map Bytes ℕ → ℕ → ℕ → ℕ → Option Bytes → Run
retry_loop exec err_strings zero tries res raw = record {
  result = res;
  raw_std_err = raw;
  tries = tries;
}
retry_loop exec err_strings (suc left) tries res raw =
    let (res', std_error) = exec tries in
    let matched = check_matching_error_code std_error err_strings in
    let res'' = graded res' std_error in
    let marked = not (res' == 255) && has_any std_error error_words in
    let raw' = if marked then some std_error else raw in
    let rest = retry_loop exec err_strings left (suc tries) res'' raw' in
    if not (matched == 0)
    then record { result = matched; raw_std_err = raw; tries = suc tries }
    else if res'' == 0 || res'' == 255
    then record { result = res''; raw_std_err = raw'; tries = suc tries }
    else rest

unfoldable pub sys_exec : (ℕ → ℕ × Bytes) → Bool → Bool → Config → Run
sys_exec exec file_exists sys_exec_aborted config =
    if not file_exists
    then record { result = 252; raw_std_err = none; tries = 0 }
    else if sys_exec_aborted
    then record { result = 255; raw_std_err = none; tries = 0 }
    else retry_loop exec config.err_strings config.retries 0 252 none

-- A successful try that says nothing of an error.
abbrev pub IsClean : (ℕ → ℕ × Bytes) → ℕ → Type 0
IsClean exec n =
    (left : ℕ) × (n ≡ suc left) × ((exec left).0 ≡ 0) × (has_any (exec left).1 error_words ≡ false)
