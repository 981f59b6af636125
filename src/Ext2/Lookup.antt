-- ===== src/Ext2/Lookup.antt =====
-- `string2file_desc` of fs/fs.c on an image: where it reads, and what it finds.
pub mod Search
mod Tests
use silicio.Ext2.{FileCalls, Inode, block_size}
use silicio.Base.{ℕ, u32, sub32, le16, le32, ◌+◌, ◌*◌, ◌<◌, ◌≡◌}

-- The calls work on a file that holds the image: `lseek` sets or moves the position, `read` gives the
-- bytes from it on and moves it; `contents n p` is the array after a read of `n` bytes at `p`, of
-- which the bytes behind the first `n` are whatever they were.
pub record IsImage {H : Type 0} (calls : FileCalls H) (image : ℕ → ℕ) : Type 0 where
  pub pos : H → ℕ
  pub contents : ℕ → ℕ → ℕ → ℕ
  pub pos-seek_set : (p : ℕ) (h : H) → pos (calls.seek_set p h) ≡ p
  pub pos-seek_cur : (n : ℕ) (h : H) → pos (calls.seek_cur n h) ≡ pos h + n
  pub read-contents : (n : ℕ) (h : H) → (calls.read n h).0 ≡ contents n (pos h)
  pub contents-image : (n p i : ℕ) → i < n → contents n p i ≡ image (p + i)

module _ (image : ℕ → ℕ) where
  -- The fields of the image that the search goes by.
  abbrev pub magic : ℕ
  magic = le16 image (1024 + 56)

  abbrev pub block_bytes : ℕ
  block_bytes = block_size (le32 image (1024 + 24))

  abbrev pub per_group : ℕ
  per_group = le32 image (1024 + 40)

  -- The block of the table of inodes of group `g`, and the address of inode `n` in such a table. The
  -- sums and products are words of 32 bits, but not the place that `lseek` comes to.
  abbrev pub table_of : ℕ → ℕ
  table_of g = le32 image (u32 (1024 + block_bytes + 32 * g) + 8)

  abbrev pub inode_at : (g n : ℕ) → ℕ
  inode_at g n = table_of g * block_bytes + u32 (128 * sub32 n 1)

-- The size and the 15 blocks of the inode at `p`.
pub record HoldsInode (image : ℕ → ℕ) (p : ℕ) (ino : Inode) : Type 0 where
  pub size : ino.i_size ≡ le32 image (p + 4)
  pub blocks : (k : ℕ) → k < 15 → ino.i_block k ≡ le32 image (p + 40 + 4 * k)
