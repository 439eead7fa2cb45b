-- ===== src/ContextIso/Tables.antt =====
-- The tables of src/iso9660.h and the texts of src/contextiso.cpp.
use libcernvm.Prelude.Texts.{codes}
use libcernvm.Prelude.{[], ◌∷◌}
use libcernvm.Prelude.Keys.{Bytes}

-- ISO9660_PRIMARY_DESCRIPTOR, as many bytes of it as its size says
abbrev pub primary_descriptor : Bytes
primary_descriptor =
    1 ∷ 67 ∷ 68 ∷ 48 ∷ 48 ∷ 49 ∷ 1 ∷ 0 ∷ 76 ∷ 73 ∷ 78 ∷ 85 ∷ 88 ∷ 32 ∷ 32 ∷ 32 ∷ 32 ∷ 32 ∷ 32 ∷ 32
    ∷ 32 ∷ 32 ∷ 32 ∷ 32 ∷ 32 ∷ 32 ∷ 32 ∷ 32 ∷ 32 ∷ 32 ∷ 32 ∷ 32 ∷ 32 ∷ 32 ∷ 32 ∷ 32 ∷ 32 ∷ 32 ∷ 32
    ∷ 32 ∷ 67 ∷ 68 ∷ 82 ∷ 79 ∷ 77 ∷ 32 ∷ 32 ∷ 32 ∷ 32 ∷ 32 ∷ 32 ∷ 32 ∷ 32 ∷ 32 ∷ 32 ∷ 32 ∷ 32 ∷ 32
    ∷ 32 ∷ 32 ∷ 32 ∷ 32 ∷ 32 ∷ 32 ∷ 32 ∷ 32 ∷ 32 ∷ 32 ∷ 32 ∷ 32 ∷ 32 ∷ 32 ∷ 0 ∷ 0 ∷ 0 ∷ 0 ∷ 0 ∷ 0
    ∷ 0 ∷ 0 ∷ 175 ∷ 0 ∷ 0 ∷ 0 ∷ 0 ∷ 0 ∷ 0 ∷ 175 ∷ 0 ∷ 0 ∷ 0 ∷ 0 ∷ 0 ∷ 0 ∷ 0 ∷ 0 ∷ 0 ∷ 0 ∷ 0 ∷ 0 ∷ 0
    ∷ 0 ∷ 0 ∷ 0 ∷ 0 ∷ 0 ∷ 0 ∷ 0 ∷ 0 ∷ 0 ∷ 0 ∷ 0 ∷ 0 ∷ 0 ∷ 0 ∷ 0 ∷ 0 ∷ 0 ∷ 0 ∷ 0 ∷ 1 ∷ 0 ∷ 0 ∷ 1 ∷ 1
    ∷ 0 ∷ 0 ∷ 1 ∷ 0 ∷ 8 ∷ 8 ∷ 0 ∷ 10 ∷ 0 ∷ 0 ∷ 0 ∷ 0 ∷ 0 ∷ 0 ∷ 10 ∷ 19 ∷ 0 ∷ 0 ∷ 0 ∷ 0 ∷ 0 ∷ 0 ∷ 0
    ∷ 0 ∷ 0 ∷ 0 ∷ 21 ∷ 0 ∷ 0 ∷ 0 ∷ 0 ∷ 34 ∷ 0 ∷ 23 ∷ 0 ∷ 0 ∷ 0 ∷ 0 ∷ 0 ∷ 0 ∷ 23 ∷ 0 ∷ 8 ∷ 0 ∷ 0 ∷ 0
    ∷ 0 ∷ 8 ∷ 0 ∷ 112 ∷ 11 ∷ 6 ∷ 10 ∷ 50 ∷ 44 ∷ 236 ∷ 2 ∷ 0 ∷ 0 ∷ 1 ∷ 0 ∷ 0 ∷ 1 ∷ 1 ∷ 0 ∷ []

abbrev pub at_8800 : Bytes
at_8800 = 255 ∷ 67 ∷ 68 ∷ 48 ∷ 48 ∷ 49 ∷ 1 ∷ []

abbrev pub at_9800 : Bytes
at_9800 = 1 ∷ 0 ∷ 23 ∷ 0 ∷ 0 ∷ 0 ∷ 1 ∷ []

abbrev pub at_a800 : Bytes
at_a800 = 1 ∷ 0 ∷ 0 ∷ 0 ∷ 0 ∷ 23 ∷ 0 ∷ []

-- ISO9660_CONTEXT_SH_STRUCT: the records of a directory, of itself, of its parent and of one file
abbrev pub context_sh_struct : Bytes
context_sh_struct =
    34 ∷ 0 ∷ 23 ∷ 0 ∷ 0 ∷ 0 ∷ 0 ∷ 0 ∷ 0 ∷ 23 ∷ 0 ∷ 8 ∷ 0 ∷ 0 ∷ 0 ∷ 0 ∷ 8 ∷ 0 ∷ 112 ∷ 11 ∷ 6 ∷ 10
    ∷ 50 ∷ 44 ∷ 236 ∷ 2 ∷ 0 ∷ 0 ∷ 1 ∷ 0 ∷ 0 ∷ 1 ∷ 1 ∷ 0 ∷ 34 ∷ 0 ∷ 23 ∷ 0 ∷ 0 ∷ 0 ∷ 0 ∷ 0 ∷ 0 ∷ 23
    ∷ 0 ∷ 8 ∷ 0 ∷ 0 ∷ 0 ∷ 0 ∷ 8 ∷ 0 ∷ 112 ∷ 11 ∷ 6 ∷ 10 ∷ 53 ∷ 50 ∷ 236 ∷ 2 ∷ 0 ∷ 0 ∷ 1 ∷ 0 ∷ 0 ∷ 1
    ∷ 1 ∷ 1 ∷ 46 ∷ 0 ∷ 24 ∷ 0 ∷ 0 ∷ 0 ∷ 0 ∷ 0 ∷ 0 ∷ 24 ∷ 254 ∷ 1 ∷ 0 ∷ 0 ∷ 0 ∷ 0 ∷ 1 ∷ 254 ∷ 112
    ∷ 11 ∷ 6 ∷ 10 ∷ 50 ∷ 44 ∷ 236 ∷ 0 ∷ 0 ∷ 0 ∷ 1 ∷ 0 ∷ 0 ∷ 1 ∷ 12 ∷ 67 ∷ 79 ∷ 78 ∷ 84 ∷ 69 ∷ 88
    ∷ 84 ∷ 46 ∷ 83 ∷ 72 ∷ 59 ∷ 49 ∷ 0 ∷ 0 ∷ 0 ∷ 0 ∷ 0 ∷ 0 ∷ 0 ∷ 0 ∷ 0 ∷ 0 ∷ 0 ∷ 0 ∷ 0 ∷ 0 ∷ 0 ∷ []

-- LIBCONTEXTISO_APP, its first 127 bytes
abbrev pub libcontextiso_app : Bytes
libcontextiso_app =
    76
    ∷ 73
    ∷ 66
    ∷ 67
    ∷ 79
    ∷ 78
    ∷ 84
    ∷ 69
    ∷ 88
    ∷ 84
    ∷ 73
    ∷ 83
    ∷ 79
    ∷ 32
    ∷ 45
    ∷ 32
    ∷ 65
    ∷ 32
    ∷ 84
    ∷ 73
    ∷ 78
    ∷ 89
    ∷ 32
    ∷ 73
    ∷ 83
    ∷ 79
    ∷ 32
    ∷ 57
    ∷ 54
    ∷ 54
    ∷ 48
    ∷ 45
    ∷ 67
    ∷ 79
    ∷ 77
    ∷ 80
    ∷ 65
    ∷ 84
    ∷ 73
    ∷ 66
    ∷ 76
    ∷ 69
    ∷ 32
    ∷ 70
    ∷ 73
    ∷ 76
    ∷ 69
    ∷ 83
    ∷ 89
    ∷ 83
    ∷ 84
    ∷ 69
    ∷ 77
    ∷ 32
    ∷ 67
    ∷ 82
    ∷ 69
    ∷ 65
    ∷ 84
    ∷ 79
    ∷ 82
    ∷ 32
    ∷ 76
    ∷ 73
    ∷ 66
    ∷ 82
    ∷ 65
    ∷ 82
    ∷ 89
    ∷ 32
    ∷ 40
    ∷ 67
    ∷ 41
    ∷ 32
    ∷ 50
    ∷ 48
    ∷ 49
    ∷ 50
    ∷ 32
    ∷ 32
    ∷ 73
    ∷ 46
    ∷ 67
    ∷ 72
    ∷ 65
    ∷ 82
    ∷ 65
    ∷ 76
    ∷ 65
    ∷ 77
    ∷ 80
    ∷ 73
    ∷ 68
    ∷ 73
    ∷ 83
    ∷ codes "                                "
