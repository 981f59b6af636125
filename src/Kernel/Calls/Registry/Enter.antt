-- ===== src/Kernel/Calls/Registry/Enter.antt =====
-- `sys_reg` of exec/exec.c where it accepts the task.
use silicio.Strings.{Chars, from, strcpy, strcat}
use silicio.Strings.Laws.{IsString, SameBelow, strcpy_lem}
use silicio.Strings.Concat.{strcat_lem, strcat-IsString}
use silicio.Task.{waiting}
use silicio.Kernel.{Kernel, Drv, max_drivers}
use silicio.Kernel.Calls.{check, find_drv}
use silicio.Kernel.Calls.Transfer.Answer.{IsEntry, find_drv_lem}
use silicio.Kernel.Calls.Registry.{dev_prefix, enter_driver, reg_record, sys_reg}
use silicio.Kernel.Calls.Registry.Unique.{find_drv-outcome}
use silicio.Base.{ℕ, refl, sym, ap, inl, inr, some, arith, update_self, update_ne, u32, neg, ◌+◌}
use silicio.Base.{◌-◌, ◌^◌, ◌≤◌, ◌<◌, ◌≡◌, ◌≢◌, ◌∙◌}

-- The array holds "/dev/" and then the `n` characters of `name`.
pub record IsNamed (arch name : Chars) (n : ℕ) : Type 0 where
  pub is_string : IsString arch (5 + n)
  pub prefix : SameBelow 5 arch dev_prefix
  pub rest : (j : ℕ) → j < n → arch (5 + j) ≡ name j

dev_prefix-IsString : IsString dev_prefix 5
dev_prefix-IsString = record { chars = λ i h. ground arith; ends = refl }

strcat-IsNamed :
    (arch name : Chars) (n : ℕ)
    → ((j : ℕ) → arch j ≡ 0)
    → IsString name n
    → 5 + n ≤ 1024
    → IsNamed (strcat (strcpy dev_prefix arch).1 name).1 name n
strcat-IsNamed arch name n blank h fits =
    let copied = (strcpy_lem 5 dev_prefix arch dev_prefix-IsString (omega arith)).1 in
    let base = (strcpy dev_prefix arch).1 in
    let is_prefix : IsString base 5 = record {
      chars = λ i l. ground (arith, copied i);
      ends = ground (arith, copied 5, blank 5);
    } in
    let joined = (strcat_lem 5 n base name is_prefix h fits).1 in
    record {
      is_string =
          strcat-IsString 5 n base name is_prefix h fits (λ j l. ground (arith, copied j, blank j));
      prefix = λ j l. ground (arith, joined j, copied j);
      rest = λ j l. ground (arith, joined (5 + j));
    }

-- The running task has no entry, `i` is the first free one and has held no name, and what the task
-- passes at `ebx` is its own: the record at `q`, the string of `n` characters at `a`, and the
-- buffer at `b`, up to its last byte.
pub record CanRegister (i q a n b ebx : ℕ) (k : Kernel) : Type 0 where
  pub from_three : 3 ≤ i
  pub index : i < max_drivers
  pub free : IsEntry k.r_drv 0 3 i
  pub none_yet : (j : ℕ) → 3 ≤ j → j < max_drivers → (k.r_drv j).id_drv ≢ k.t_indice
  pub passed : check ebx k ≡ some q
  pub valid : q ≢ 0
  pub name_at : check (k.params q).arch k ≡ some a
  pub name_valid : a ≢ 0
  pub buf_at : check (k.params q).buf k ≡ some b
  pub buf_valid : b ≢ 0
  pub page : (k.params q).size ≤ 4096
  pub last :
      (e : ℕ) × (check (u32 ((k.params q).buf + (k.params q).size + (2 ^ 32 - 1))) k ≡ some e)
      × (e ≢ 0)
  pub blank : (j : ℕ) → (k.r_drv i).arch j ≡ 0
  pub name : IsString (from k.bytes a) n
  pub fits : 5 + n ≤ 1024

-- The entry of a driver.
pub record IsDriver (e : Drv) (id buf size sys : ℕ) : Type 0 where
  pub id_is : e.id_drv ≡ id
  pub buf_is : e.buf ≡ buf
  pub size_is : e.size ≡ size
  pub sys_is : e.sys ≡ sys
  pub no_caller : e.id_ret ≡ 0

pub enter_driver-t_indice :
    (i q : ℕ) (arch : Chars) (b : ℕ) (k : Kernel)
    → (enter_driver i q arch b k).t_indice ≡ k.t_indice
unfolding enter_driver
enter_driver-t_indice i q arch b k = refl

module _ (i q a n b ebx : ℕ) (k : Kernel) (h : CanRegister i q a n b ebx k) where
  -- The kernel after the call.
  abbrev after : Kernel
  after = enter_driver i q (from k.bytes a) b k

  pub sys_reg-enter_driver : sys_reg ebx k ≡ some (i, after)
  unfolding sys_reg reg_record
  sys_reg-enter_driver =
      let own : find_drv 7 3 k.t_indice k.r_drv ≡ 10 =
        elim (find_drv-outcome 7 3 k.t_indice k.r_drv) [
          | inl c ↦ c.0
          | inr c ↦ absurd (h.none_yet _ c.1 (omega (arith, c.0)) c.2)
        ] in
      let first : find_drv 7 3 0 k.r_drv ≡ i =
        find_drv_lem 7 3 i 0 k.r_drv h.free h.from_three (omega (arith, h.index)) in
      let (e, le, ne) = h.last in
      rw (own, first, h.passed, h.name_at, h.buf_at, le)
        (ground (arith, h.valid, h.index, h.name_valid, h.buf_valid, h.page, ne))

  entry-after :
      IsNamed (after.r_drv i).arch (from k.bytes a) n
      × IsDriver (after.r_drv i) k.t_indice b (k.params q).size q
      × ((j : ℕ) → j ≢ i → after.r_drv j ≡ k.r_drv j)
  unfolding enter_driver
  entry-after =
      let e = k.r_drv i in
      let name = from k.bytes a in
      let v = record e {
        arch = (strcat (strcpy dev_prefix e.arch).1 name).1;
        id_drv = k.t_indice;
        buf = b;
        size = (k.params q).size;
        id_ret = 0;
        sys = q;
      } in
      let here = update_self k.r_drv i v in
      (
        rw here (strcat-IsNamed e.arch name n h.blank h.name h.fits),
        rw here (record {
          id_is = refl;
          buf_is = refl;
          size_is = refl;
          sys_is = refl;
          no_caller = refl;
        }),
        λ j ne. update_ne k.r_drv v (λ d. ne (sym d)),
      )

  refused-after : (ebx2 : ℕ) → sys_reg ebx2 after ≡ some (neg 1, after)
  unfolding sys_reg
  refused-after ebx2 =
      let (named, entry, others) = entry-after in
      let same : after.t_indice ≡ k.t_indice = enter_driver-t_indice i q (from k.bytes a) b k in
      let again : find_drv 7 3 after.t_indice after.r_drv ≡ i =
        find_drv_lem 7 3 i after.t_indice after.r_drv
          (record {
            mine = entry.id_is ∙ sym same;
            before = λ j l u e.
                h.none_yet j l (omega (arith, h.index))
                  (sym (ap (λ (d : Drv). d.id_drv) (others j (omega arith))) ∙ e ∙ same);
          })
          h.from_three (omega (arith, h.index)) in
      rw again (ground (arith, h.index))

-- Where the task may register (`CanRegister`: it has no entry, the first free entry from 3 on is
-- `i` and has held no name, and its record, its string and its buffer are its own), `sys_reg`
-- returns `i`; the entry then has the name "/dev/" with the string of the task behind it, the
-- task, its buffer and its record; the task waits, no other entry has changed, and a second call
-- by the task is refused with -1 and changes nothing.
pub sys_reg_lem :
    (i q a n b ebx : ℕ) (k : Kernel)
    → CanRegister i q a n b ebx k
    → (k' : Kernel) × (sys_reg ebx k ≡ some (i, k'))
      × IsNamed (k'.r_drv i).arch (from k.bytes a) n
      × IsDriver (k'.r_drv i) k.t_indice b (k.params q).size q
      × ((k'.r_tareas k.t_indice).status ≡ waiting)
      × ((j : ℕ) → j ≢ i → k'.r_drv j ≡ k.r_drv j)
      × ((ebx2 : ℕ) → sys_reg ebx2 k' ≡ some (neg 1, k'))
unfolding enter_driver
sys_reg_lem i q a n b ebx k h =
    let (named, entry, others) = entry-after i q a n b ebx k h in
    (
      enter_driver i q (from k.bytes a) b k,
      sys_reg-enter_driver i q a n b ebx k h,
      named,
      entry,
      ground arith,
      others,
      refused-after i q a n b ebx k h,
    )
