-- ===== src/Ext2/Program.antt =====
-- `main` of fs/fs.c, as `fs_main`: the name that is looked for, and the search. `open` is a
-- parameter, `none` where it gives no file.
use mathlib.Core.Path.{subst}
use silicio.Strings.{Chars}
use silicio.Ext2.{FileCalls, Inode, DirEntry, string2file_desc}
use silicio.Base.{ℕ, zero, suc, refl, inl, inr, Bool, true, false, Option, none, some, arith}
use silicio.Base.{Bool-cases, Option-cases, update, update_self, update_ne, ◌+◌, ◌≤◌, ◌<◌, ◌≡◌}
use silicio.Base.{◌⊎◌, ◌∙◌, ◌||◌, ◌==◌, if◌then◌else◌, ◌>>=◌}

abbrev pub ext2_name_len : ℕ
ext2_name_len = 255

-- `INODE_ROOT`
abbrev pub inode_root : ℕ
inode_root = 2

-- The test of the loop, on the second argument: a slash, or the digit 0.
pub is_end : Chars → ℕ → Bool
is_end argv2 i = argv2 (i + 1) == 0x2f || argv2 (i + 1) == 0x30

-- The loop that copies the name. The fuel is the places of `file` from `i` on; `none` is a store
-- behind that array.
pub name_loop : ℕ → (argv2 : Chars) (i : ℕ) (file : Chars) → Option Chars
name_loop zero argv2 i file = none
name_loop (suc left) argv2 i file =
    let rest = name_loop left argv2 (i + 1) (update file i (argv2 (i + 1))) in
    if is_end argv2 i then some (update file i 0) else rest

-- The number that `main` returns behind a message, or the entry that it prints before it returns 0.
-- The local variables start with what is on the stack.
pub fs_main :
    {H : Type 0}
    → FileCalls H
    → (strcmp : Chars → Chars → ℕ) (open_file : Chars → Option H)
    → (junk : Chars) (desc : DirEntry) (argc : ℕ) (argv1 argv2 : Chars)
    → Option (ℕ ⊎ (DirEntry × Inode))
fs_main calls strcmp open_file junk desc argc argv1 argv2 =
    if argc == 3
    then elim (open_file argv1) [
      | none ↦ some (inl 0)
      | some arch ↦ do
        file ← name_loop ext2_name_len argv2 0 junk
        string2file_desc calls strcmp file inode_root desc arch
    ]
    else some (inl 0)

-- `file` holds the `n` bytes of the argument behind its first, and a null behind them.
pub record IsName (argv2 : Chars) (n : ℕ) (file : Chars) : Type 0 where
  pub copied : (i : ℕ) → i < n → file i ≡ argv2 (i + 1)
  pub null : file n ≡ 0

not_before :
    (argv2 : Chars) {i m : ℕ}
    → is_end argv2 i ≡ false
    → ((j : ℕ) → i + 1 ≤ j → j < m → is_end argv2 j ≡ false)
    → (j : ℕ) → i ≤ j
    → j < m
    → is_end argv2 j ≡ false
not_before argv2 {i} here next j l l' = elim (Bool-cases (i == j)) [
  | inl y ↦ let e : i ≡ j = ground arith in subst (λ k. is_end argv2 k ≡ false) e here
  | inr n ↦ next j (ground arith) l'
]

-- What the loop does from the place `i` on.
name_loop-cases :
    (left : ℕ) (argv2 : Chars) (i : ℕ) (file : Chars)
    → ((j : ℕ) → j < i → file j ≡ argv2 (j + 1))
    → (((j : ℕ) → i ≤ j → j < i + left → is_end argv2 j ≡ false)
        × (name_loop left argv2 i file ≡ none))
      ⊎ ((n : ℕ) × (name : Chars) × (i ≤ n)
          × (n < i + left)
          × ((j : ℕ) → i ≤ j → j < n → is_end argv2 j ≡ false)
          × (is_end argv2 n ≡ true)
          × IsName argv2 n name
          × (name_loop left argv2 i file ≡ some name))
unfolding name_loop
name_loop-cases zero argv2 i file h = inl (λ j l l'. absurd (omega arith), refl)
name_loop-cases (suc left) argv2 i file h = elim (Bool-cases (is_end argv2 i)) [
  | inl y ↦ inr (
    i,
    update file i 0,
    omega arith,
    omega arith,
    λ j l l'. absurd (omega arith),
    y,
    record { copied = λ j l. update_ne file 0 (omega arith) ∙ h j l; null = update_self file i 0 },
    rw (y) refl,
  )
  | inr n ↦
      let copied : (j : ℕ) → j < i + 1 → update file i (argv2 (i + 1)) j ≡ argv2 (j + 1) =
        λ j l. ground (arith, h j) in
      elim (name_loop-cases left argv2 (i + 1) (update file i (argv2 (i + 1))) copied) [
        | inl (none_left, e) ↦
            inl (λ j l l'. not_before argv2 n none_left j l (omega arith), rw (n) e)
        | inr (m, name, l, l', before, at, is, e) ↦
            inr (m, name, omega arith, omega arith, not_before argv2 n before, at, is, rw (n) e)
      ]
]

-- `fs_main` returns 0 without the search where it has not three arguments or `open` gives no
-- file. Else, with any comparison of names, it is the search of `string2file_desc` in the
-- directory 2 for the name that the second argument has behind its first byte and before the next
-- slash or digit 0, where that is shorter than 255 bytes; where none of the next 255 bytes is one
-- of these two, a null among them or not, the name is stored past the end of its array.
pub fs_main-cases :
    {H : Type 0} (calls : FileCalls H) (strcmp : Chars → Chars → ℕ) (open_file : Chars → Option H)
    (junk : Chars) (desc : DirEntry) (argc : ℕ) (argv1 argv2 : Chars)
    → (((argc == 3) ≡ false ⊎ (open_file argv1 ≡ none))
        × (fs_main calls strcmp open_file junk desc argc argv1 argv2 ≡ some (inl 0)))
      ⊎ ((argc == 3) ≡ true
          × (arch : H) × (open_file argv1 ≡ some arch)
          × ((((j : ℕ) → j < 255 → is_end argv2 j ≡ false)
                × (fs_main calls strcmp open_file junk desc argc argv1 argv2 ≡ none))
              ⊎ ((n : ℕ) × (name : Chars) × (n < 255)
                  × ((j : ℕ) → j < n → is_end argv2 j ≡ false)
                  × (is_end argv2 n ≡ true)
                  × IsName argv2 n name
                  × (fs_main calls strcmp open_file junk desc argc argv1 argv2
                      ≡ string2file_desc calls strcmp name inode_root desc arch))))
unfolding fs_main
fs_main-cases calls strcmp open_file junk desc argc argv1 argv2 = elim (Bool-cases (argc == 3)) [
  | inr other ↦ inl (inl other, rw (other) refl)
  | inl three ↦ elim (Option-cases (open_file argv1)) [
    | inl o ↦ inl (inr o, rw (three, o) refl)
    | inr (arch, o) ↦ inr (
      three,
      arch,
      o,
      elim (name_loop-cases 255 argv2 0 junk (λ j l. absurd (omega arith))) [
        | inl (no_end, e) ↦ inl (λ j l. no_end j (omega arith) l, rw (three, o, e) refl)
        | inr (n, name, l, l', before, at, is, e) ↦
            inr (n, name, l', λ j. before j (omega arith), at, is, rw (three, o, e) refl)
      ],
    )
  ]
]
