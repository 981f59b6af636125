-- ===== src/Ext2/Lookup/Tests.antt =====
-- A run of `string2file_desc` of fs/fs.c: an image with a directory of two files.
use silicio.Strings.{Chars}
use silicio.Ext2.{
  FileCalls, Inode, DirEntry, entry_at, block_size, string2file_desc, string2dir, dir_loop,
  superblock, read_inode, block_jump, group, block_logico, fichero, copy_entry,
}
use silicio.Ext2.Tests.{block, first_char, wanted, unset}
use silicio.Ext2.Program.{inode_root, is_end, IsName, fs_main, fs_main-cases}
use silicio.Ext2.Lookup.{IsImage}
use silicio.Ext2.Lookup.Search.{dir_block}
use silicio.Base.{ℕ, refl, inl, inr, true, false, Option, none, some, List, [], ltb, le16}
use silicio.Base.{le32, ◌+◌, ◌-◌, ◌<◌, ◌≡◌, ◌⊎◌, ◌∷◌, ◌||◌, ◌==◌, if◌then◌else◌, ◌>>=◌}

-- Blocks of 1024 bytes, 8 inodes in a group, the table of inodes in block 5; the directory is inode
-- 2, of 24 bytes in block 9, and inode 6 has 7 bytes.
abbrev image : Chars
image p =
    if p == 1080
    then 0x53
    else if p == 1081
    then 0xef
    else if p == 1064
    then 8
    else if p == 2056
    then 5
    else if p == 5252
    then 24
    else if p == 5288
    then 9
    else if p == 5764
    then 7
    else if ltb p 9216
    then 0
    else block (p - 9216)

-- The open file is its position.
abbrev disk : FileCalls ℕ
disk = record {
  seek_set = λ p h. p;
  seek_cur = λ n h. h + n;
  read = λ n h. (λ i. image (h + i), h + n);
}

abbrev disk_image : IsImage disk image
disk_image = record {
  pos = λ h. h;
  contents = λ n p i. image (p + i);
  pos-seek_set = λ p h. refl;
  pos-seek_cur = λ n h. refl;
  read-contents = λ n h. refl;
  contents-image = λ n p i l. refl;
}

abbrev listed : List DirEntry
listed =
    entry_at (dir_block disk image disk_image 2) 0
    ∷ entry_at (dir_block disk image disk_image 2) 12
    ∷ []

found_size : ℕ ⊎ (DirEntry × Inode) → ℕ
found_size (inl err) = 0
found_size (inr (de, ino)) = 1 + ino.i_size

-- "b" is found, but its inode, the 6, is looked for in group 6 and not in group 0: the size comes
-- out as 0 and not as 7.
size_of_b : (do r ← string2file_desc disk first_char wanted 2 unset 0; some (found_size r)) ≡ some 1
unfolding string2file_desc string2dir dir_loop superblock le16 read_inode le32 block_jump group
    block_size entry_at block_logico found_size fichero copy_entry
size_of_b = refl

-- "/b/", on the disk that `open` always gives.
abbrev argument : Chars
argument i = if i == 0 || i == 2 then 0x2f else if i == 1 then 0x62 else 0

abbrev at_start : Chars → Option ℕ
at_start f = some 0

fs_main_example :
    (((3 == 3) ≡ false ⊎ (at_start argument ≡ none))
      × (fs_main disk first_char at_start wanted unset 3 argument argument ≡ some (inl 0)))
    ⊎ ((3 == 3) ≡ true
        × (arch : ℕ) × (at_start argument ≡ some arch)
        × ((((j : ℕ) → j < 255 → is_end argument j ≡ false)
              × (fs_main disk first_char at_start wanted unset 3 argument argument ≡ none))
            ⊎ ((n : ℕ) × (name : Chars) × (n < 255)
                × ((j : ℕ) → j < n → is_end argument j ≡ false)
                × (is_end argument n ≡ true)
                × IsName argument n name
                × (fs_main disk first_char at_start wanted unset 3 argument argument
                    ≡ string2file_desc disk first_char name inode_root unset arch))))
fs_main_example = fs_main-cases disk first_char at_start wanted unset 3 argument argument
