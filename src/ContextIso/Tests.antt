-- ===== src/ContextIso/Tests.antt =====
-- Images that src/contextiso.cpp makes.
use libcernvm.Prelude.Texts.{codes}
use libcernvm.Prelude.{◌≡◌, refl, [], ◌∷◌, ◌++◌, some, arith, take}
use libcernvm.Prelude.Keys.{Bytes}
use libcernvm.Utilities.Numbers.{decimal}
use libcernvm.ContextIso.{Disk, Tm, context_sh, build_simple_cdrom, date_now, padded}
use libcernvm.ContextIso.Reader.{read_file}
use libcernvm.ContextIso.Contents.{read_file-build_simple_cdrom}

abbrev new_year : Tm
new_year = record { year = 2013; mon = 0; mday = 1; hour = 12; min = 30; sec = 5 }

date_lem : date_now new_year ≡ codes "20130001123005000"
unfolding date_now padded decimal
date_lem = refl

abbrev hello : Bytes
hello = codes "hello"

read_file-build_simple_cdrom_example :
    (m : Disk) × (build_simple_cdrom new_year hello context_sh hello 5 ≡ some m)
    × (read_file m (context_sh ++ (59 ∷ 49 ∷ [])) ≡ some (take 309248 (take 5 hello)))
read_file-build_simple_cdrom_example =
    read_file-build_simple_cdrom new_year hello hello 5
      (omega arith, omega arith, omega arith, omega arith, omega arith) (omega arith) (omega arith)
