-- ===== src/Ext2/Lookup/Search.antt =====
-- `string2file_desc` of fs/fs.c on an image: what it finds.
use silicio.Strings.{Chars}
use silicio.Ext2.{FileCalls, Inode, DirEntry, group}
use silicio.Ext2.{read_inode}
use silicio.Ext2.Directory.{Absent, IsLast, IsCopy}
use silicio.Ext2.Lookup.{IsImage, HoldsInode, block_bytes, per_group, inode_at}
use silicio.Base.{ℕ, inl, inr, List}
use silicio.Base.{le32, ◌+◌, ◌*◌, ◌/◌, ◌%◌, ◌<◌, ◌≡◌, ◌⊎◌, ◌==◌, if◌then◌else◌}

-- The answer of the search among the entries: 3 where none has the name, or the last one of the name
-- has inode 0; else a copy of that entry, and the inode of its number in the table of its group.
pub Answers :
    (image : ℕ → ℕ) (strcmp : Chars → Chars → ℕ) (name : Chars) (es : List DirEntry)
    → ℕ ⊎ (DirEntry × Inode)
    → Type 0
Answers image strcmp name es r =
    (Absent strcmp name es × (r ≡ inl 3))
    ⊎ ((e : DirEntry) × IsLast strcmp name e es
        × (((e.inode ≡ 0) × (r ≡ inl 3))
            ⊎ ((0 < e.inode)
                × (de : DirEntry) × (ino : Inode) × (r ≡ inr (de, ino))
                × IsCopy e de
                × HoldsInode image (inode_at image (e.inode % per_group image) e.inode) ino)))

module _ {H : Type 0} (calls : FileCalls H) (image : ℕ → ℕ) (file : IsImage calls image) where
  -- The inode of the directory and its first block, as the calls find them.
  abbrev dir_at : ℕ → ℕ
  dir_at n = inode_at image (n / per_group image) n

  -- The bytes of the first block of the directory, and the size that its inode holds.
  abbrev pub dir_block : ℕ → Chars
  dir_block n = file.contents (block_bytes image) (le32 image (dir_at n + 40) * block_bytes image)

  abbrev pub dir_size : ℕ → ℕ
  dir_size n = le32 image (dir_at n + 4)

  module _ (strcmp : Chars → Chars → ℕ) (name : Chars) where
    -- What is done with the entry that `string2dir` gives.
    second : (h : H) → ℕ × DirEntry → ℕ ⊎ (DirEntry × Inode)
    second h r =
        let t = group calls (block_bytes image) (r.1.inode % per_group image) h in
        let i = read_inode calls (block_bytes image) r.1.inode t.0 t.1 in
        if r.0 == 0 then inl 3 else inr (r.1, i.0)
