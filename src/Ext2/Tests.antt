-- ===== src/Ext2/Tests.antt =====
-- A directory block of fs/fs.c, and a name to look for.
use silicio.Strings.{Chars}
use silicio.Ext2.{DirEntry}
use silicio.Base.{ℕ, ◌%◌, ◌==◌, if◌then◌else◌}

-- Two entries of 12 bytes, "a" of inode 5 and "b" of inode 6.
abbrev pub block : Chars
block i =
    if i == 0
    then 5
    else if i == 12
    then 6
    else if i % 12 == 4
    then 12
    else if i % 12 == 6
    then 1
    else if i == 8
    then 0x61
    else if i == 20
    then 0x62
    else 0

-- A comparison of the first characters.
abbrev pub first_char : Chars → Chars → ℕ
first_char p q = if p 0 == q 0 then 0 else 1

-- "b"
abbrev pub wanted : Chars
wanted i = if i == 0 then 0x62 else 0

abbrev pub unset : DirEntry
unset = record { inode = 0; rec_len = 0; name_len = 0; file_type = 0; name = λ i. 0 }
