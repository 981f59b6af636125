-- ===== src/Ext2.antt =====
-- fs/fs.c: a reader of an ext2 image, a program of its own. `lseek`, `read` and `strcmp` are those
-- of its C library, parameters here. The offsets of the fields are those of a compiler for 32 bits.
pub mod Directory
pub mod Lookup
pub mod Program
pub mod Tests
use silicio.Strings.{Chars, from}
use silicio.Base.{ℕ, zero, suc, inl, inr, not, Option, none, some, ltb, u32, sub32, le16, le32}
use silicio.Base.{◌+◌, ◌*◌, ◌/◌, ◌%◌, ◌^◌, ◌⊎◌, ◌||◌, ◌==◌, if◌then◌else◌, ◌>>=◌, ◌>>◌}

-- An open file: `lseek` from the start and from the position, and `read`, with the bytes it gives.
pub record FileCalls (H : Type 0) : Type 0 where
  pub seek_set : ℕ → H → H
  pub seek_cur : ℕ → H → H
  pub read : ℕ → H → (ℕ → ℕ) × H

abbrev pub size_boot : ℕ
size_boot = 1024

-- `ext2_super_block`, of 488 bytes: the fields that are read.
pub record SuperBlock : Type 0 where
  pub s_log_block_size : ℕ
  pub s_inodes_per_group : ℕ
  pub s_magic : ℕ

-- `ext2_inode`, of 128 bytes.
pub record Inode : Type 0 where
  pub i_size : ℕ
  pub i_block : ℕ → ℕ

-- `ext2_dir_entry`
pub record DirEntry : Type 0 where
  pub inode : ℕ
  pub rec_len : ℕ
  pub name_len : ℕ
  pub file_type : ℕ
  pub name : Chars

pub entry_at : Chars → ℕ → DirEntry
entry_at b p = record {
  inode = le32 b p;
  rec_len = le16 b (p + 4);
  name_len = b (p + 6);
  file_type = b (p + 7);
  name = from b (p + 8);
}

-- `fichero`, the name with a null behind it.
pub fichero : DirEntry → Chars
fichero e i = if ltb i e.name_len then e.name i else 0

-- The stores of `string2dir` into the record of the caller, the name as long as the entry says.
pub copy_entry : (e de_file : DirEntry) → DirEntry
copy_entry e de_file = record e {
  name = λ i. if ltb i e.name_len then e.name i else de_file.name i;
}

pub block_size : ℕ → ℕ
block_size block = u32 (u32 (2 ^ block) * 1024)

-- The loop of `string2dir`, from the byte `j` of the block on. It has no `break`: the last entry of
-- the name stays. `none` is the end of the fuel, which an entry of length 0 brings about.
pub dir_loop :
    ℕ
    → (strcmp : Chars → Chars → ℕ)
    → (file : Chars) (size : ℕ) (b : Chars) (j : ℕ) (de_file : DirEntry) (ret : ℕ)
    → Option (ℕ × DirEntry)
dir_loop zero strcmp file size b j de_file ret = none
dir_loop (suc left) strcmp file size b j de_file ret =
    let e = entry_at b j in
    let same = strcmp file (fichero e) == 0 in
    let rest =
      dir_loop left strcmp file size b (j + e.rec_len)
        (if same then copy_entry e de_file else de_file) (if same then e.inode else ret) in
    if ltb j size then rest else some (ret, de_file)

pub string2dir :
    (strcmp : Chars → Chars → ℕ) (b file : Chars) (de_file : DirEntry) (size : ℕ)
    → Option (ℕ × DirEntry)
string2dir strcmp b file de_file size = dir_loop (size + 1) strcmp file size b 0 de_file 0

module _ {H : Type 0} (calls : FileCalls H) where
  pub block_jump : (size_block block : ℕ) → H → H
  block_jump size_block zero h = h
  block_jump size_block (suc block) h = block_jump size_block block (calls.seek_cur size_block h)

  -- 0, or 1 where the number of the file system is another.
  pub superblock : H → ℕ × SuperBlock × H
  superblock h =
      let r = calls.read 488 (calls.seek_set size_boot h) in
      let sb : SuperBlock = record {
        s_log_block_size = le32 r.0 24;
        s_inodes_per_group = le32 r.0 40;
        s_magic = le16 r.0 56;
      } in
      (if sb.s_magic == 0xef53 then 0 else 1, sb, r.1)

  -- The `bg_inode_table` of the descriptor, which has 32 bytes.
  pub group : (bs n_group : ℕ) → H → ℕ × H
  group bs n_group h =
      let r = calls.read 32 (calls.seek_set (u32 (size_boot + bs + 32 * n_group)) h) in
      (le32 r.0 8, r.1)

  pub read_inode : (bs n_inode bg_inode_table : ℕ) → H → Inode × H
  read_inode bs n_inode bg_inode_table h =
      let h1 = block_jump bs bg_inode_table (calls.seek_set 0 h) in
      let r = calls.read 128 (calls.seek_cur (u32 (128 * sub32 n_inode 1)) h1) in
      (record { i_size = le32 r.0 4; i_block = λ k. le32 r.0 (40 + 4 * k) }, r.1)

  pub block_logico : (bs n_logic : ℕ) → H → (ℕ → ℕ) × H
  block_logico bs n_logic h = calls.read bs (block_jump bs n_logic (calls.seek_set 0 h))

  -- The error, or 0 with the entry and the inode of the file. `none` is a loop without end, or a
  -- division by 0: by the inodes of a group, or by the sectors of a block, for `size_logic`, which
  -- nothing reads.
  pub string2file_desc :
      (strcmp : Chars → Chars → ℕ) (file : Chars) (inode_dir : ℕ) (de_file : DirEntry)
      → H
      → Option (ℕ ⊎ (DirEntry × Inode))
  string2file_desc strcmp file inode_dir de_file h =
      let (bad, sb, h1) = superblock h in
      let bs = block_size sb.s_log_block_size in
      let (table, h2) = group bs (inode_dir / sb.s_inodes_per_group) h1 in
      let (ino, h3) = read_inode bs inode_dir table h2 in
      let (lo, h4) = block_logico bs (ino.i_block 0) h3 in
      let found = (do
        (ret, de) ← string2dir strcmp lo file de_file ino.i_size
        let (table2, h5) = group bs (de.inode % sb.s_inodes_per_group) h4
        let (ino2, h6) = read_inode bs de.inode table2 h5
        some (if ret == 0 then inl 3 else inr (de, ino2))) in
      if not (bad == 0)
      then some (inl 2)
      else if sb.s_inodes_per_group == 0 || bs / 512 == 0
      then none
      else found
