-- ===== src/Ext2/Directory.antt =====
-- What `string2dir` of fs/fs.c finds in a directory block.
use silicio.Strings.{Chars}
use silicio.Ext2.{DirEntry, copy_entry, entry_at, fichero, dir_loop, string2dir}
use silicio.Base.{ℕ, zero, suc, refl, ap, inl, inr, Bool, true, false, some, List, [], arith, ltb}
use silicio.Base.{Bool-cases, ◌+◌, ◌≤◌, ◌<◌, ◌≡◌, ◌⊎◌, ◌∷◌, ◌==◌}

-- The entries of the block from the byte `j` on: each begins where the one before says, and the
-- last one reaches the size.
pub data Entries (b : Chars) (size : ℕ) : ℕ → List DirEntry → Type 0 where
  last : {j : ℕ} → size ≤ j → Entries b size j []
  next :
      {j : ℕ} {es : List DirEntry}
      → j < size
      → 0 < (entry_at b j).rec_len
      → Entries b size (j + (entry_at b j).rec_len) es
      → Entries b size j (entry_at b j ∷ es)

-- The record has the fields of the entry, and its name as long as that says.
pub record IsCopy (e d : DirEntry) : Type 0 where
  pub inode_is : d.inode ≡ e.inode
  pub rec_len_is : d.rec_len ≡ e.rec_len
  pub name_len_is : d.name_len ≡ e.name_len
  pub file_type_is : d.file_type ≡ e.file_type
  pub name_is : (i : ℕ) → i < e.name_len → d.name i ≡ e.name i

copy_entry-IsCopy : (e d : DirEntry) → IsCopy e (copy_entry e d)
unfolding copy_entry
copy_entry-IsCopy e d = record {
  inode_is = refl;
  rec_len_is = refl;
  name_len_is = refl;
  file_type_is = refl;
  name_is = λ i l. ground arith;
}

module _ (strcmp : Chars → Chars → ℕ) (file : Chars) where
  -- The entry has the name.
  pub is_named : DirEntry → Bool
  is_named e = strcmp file (fichero e) == 0

  -- No entry of the list has the name.
  pub data Absent : List DirEntry → Type 0 where
    nobody : Absent []
    another : {e : DirEntry} {es : List DirEntry} → is_named e ≡ false → Absent es → Absent (e ∷ es)

  -- `e` is the last entry of the name in the list.
  pub data IsLast (e : DirEntry) : List DirEntry → Type 0 where
    here : {es : List DirEntry} → is_named e ≡ true → Absent es → IsLast e (e ∷ es)
    later : {d : DirEntry} {es : List DirEntry} → IsLast e es → IsLast e (d ∷ es)

  -- The result of the search of a list, over what was found before it.
  Found : (es : List DirEntry) (de_file : DirEntry) (ret : ℕ) → ℕ × DirEntry → Type 0
  Found es de_file ret r =
      (Absent es × (r ≡ (ret, de_file)))
      ⊎ ((e : DirEntry) × IsLast e es × (r.0 ≡ e.inode) × IsCopy e r.1)

  dir_loop-Found :
      (left size : ℕ) (b : Chars) {j : ℕ} {es : List DirEntry} (de_file : DirEntry) (ret : ℕ)
      → Entries b size j es
      → size < j + left
      → 0 < left
      → (r : ℕ × DirEntry) × (dir_loop left strcmp file size b j de_file ret ≡ some r)
        × Found es de_file ret r
  unfolding dir_loop Found is_named
  dir_loop-Found zero size b de_file ret (last l) h pos = absurd (omega arith)
  dir_loop-Found zero size b de_file ret (next l p rest) h pos = absurd (omega arith)
  dir_loop-Found (suc left) size b {j} de_file ret (last l) h pos =
      let z : ltb j size ≡ false = ground arith in ((ret, de_file), rw z refl, inl (nobody, refl))
  dir_loop-Found (suc left) size b {j} de_file ret (next l p rest) h pos =
      let z : ltb j size ≡ true = ground arith in
      let e = entry_at b j in
      elim (Bool-cases (strcmp file (fichero e) == 0)) [
        | inl y ↦
            let (r, eq, found) =
              dir_loop-Found left size b (copy_entry e de_file) e.inode rest (omega arith)
                (omega arith) in
            (
              r,
              rw (z, y) eq,
              elim found [
                | inl f ↦ inr (
                  e,
                  here y f.0,
                  ap (λ (t : ℕ × DirEntry). t.0) f.1,
                  rw (f.1) (copy_entry-IsCopy e de_file),
                )
                | inr f ↦ let (d, il, q, c) = f in inr (d, later il, q, c)
              ],
            )
        | inr n ↦
            let (r, eq, found) =
              dir_loop-Found left size b de_file ret rest (omega arith) (omega arith) in
            (
              r,
              rw (z, n) eq,
              elim found [
                | inl f ↦ inl (another n f.0, f.1)
                | inr f ↦ let (d, il, q, c) = f in inr (d, later il, q, c)
              ],
            )
      ]

  -- On a block whose bytes below the size are a chain of entries, each of a length above 0, with
  -- any comparison of names, `string2dir` ends within its fuel; it finds the last entry of the
  -- name, returns its inode and copies its fields into the record of the caller, or, where no
  -- entry has the name, returns 0 and leaves that record.
  pub string2dir_lem :
      (b : Chars) (de_file : DirEntry) (size : ℕ) (es : List DirEntry)
      → Entries b size 0 es
      → (r : ℕ × DirEntry) × (string2dir strcmp b file de_file size ≡ some r)
        × ((Absent es × (r ≡ (0, de_file)))
            ⊎ ((e : DirEntry) × IsLast e es × (r.0 ≡ e.inode) × IsCopy e r.1))
  unfolding string2dir Found
  string2dir_lem b de_file size es entries =
      dir_loop-Found (size + 1) size b de_file 0 entries (omega arith) (omega arith)
