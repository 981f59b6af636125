-- ===== src/Start/Order.antt =====
-- The loop over the modules in `_main` of main/main.c starts them in their order.
use mathlib.Core.Path.{subst}
use silicio.Strings.{from}
use silicio.Multiboot.{Loader}
use silicio.Bitmap.Header.{find_last}
use silicio.Kernel.{Kernel}
use silicio.Kernel.Exec.{exec}
use silicio.Kernel.Exec.Enters.{HasTasks}
use silicio.Kernel.Exec.Returns.{exec_cases}
use silicio.Start.{Image, Junk, is_start, is_picture, start_module, start_modules}
use silicio.Mm.Paging.Total.{FreeRun-less}
use silicio.Start.Modules.{HasPages, HasPages-less}
use silicio.Start.Modules.{fits, IsInside, Runs, Runs-nil, Runs-one, Runs-append}
use silicio.Base.{ℕ, zero, suc, refl, ap, inl, inr, Bool, true, false, not, Option, some, List}
use silicio.Base.{[], arith, Bool-cases, length, ◌+◌, ◌*◌, ◌≤◌, ◌<◌, ◌≡◌, ◌∙◌, ◌∷◌, ◌&&◌}
use silicio.Base.{if◌then◌else◌}

-- The numbers from `i` on, `left` of them, for which the test holds.
abbrev pub such_that : (left i : ℕ) → (ℕ → Bool) → List ℕ
such_that zero i test = []
such_that (suc left) i test =
    if test i then i ∷ such_that left (i + 1) test else such_that left (i + 1) test

pub length-such_that : (left i : ℕ) (test : ℕ → Bool) → length (such_that left i test) ≤ left
length-such_that zero i test = omega arith
length-such_that (suc left) i test = ground (arith, length-such_that left (i + 1) test)

module _ (image : Image) (junk : Junk) (loader : Loader) (bytes : ℕ → ℕ) where
  -- A module that fits, is not the picture and is not "/boot/start.bin".
  abbrev pub is_task : ℕ → Bool
  is_task i =
      not (is_start junk loader bytes i)
      && (not (is_picture junk loader bytes i) && fits image loader bytes i)

  -- A module alone.
  abbrev pub alone : ℕ → List ℕ
  alone i = if fits image loader bytes i then i ∷ [] else []

  exec_of :
      (k : Kernel) (i : ℕ) {k' : Kernel} {n : ℕ}
      → k.bytes ≡ bytes
      → exec image.layout
          (loader.mods i).mod_start
          (loader.mods i).mod_end
          (from bytes (loader.mods i).string)
          k
        ≡ some (n, k')
      → start_module image (loader.mods i) k ≡ some k'
  unfolding start_module
  exec_of k i {k'} {n} b e =
      let mod_info = loader.mods i in
      let e' : exec image.layout mod_info.mod_start mod_info.mod_end (from k.bytes mod_info.string)
            k
          ≡ some (n, k') =
        ap (λ m. exec image.layout mod_info.mod_start mod_info.mod_end (from m mod_info.string) k) b
        ∙ e in
      rw e'

  pub start_module-Runs :
      (k : Kernel) (n i : ℕ) {r : ℕ}
      → k.bytes ≡ bytes
      → HasTasks k n
      → HasPages loader k (3 + r)
      → 0 < n
      → n < 98
      → IsInside image loader bytes i
      → (k' : Kernel) × (start_module image (loader.mods i) k ≡ some k')
        × Runs image loader bytes k k' n (alone i)
        × HasPages loader k' r
  start_module-Runs k n i {r} b h pages pos room inside =
      let mod_info = loader.mods i in
      let (k', e, cases) =
        exec_cases image.layout k n h room mod_info.mod_start mod_info.mod_end
          (from bytes mod_info.string) pos pages.run (omega (arith, pages.behind, inside)) in
      let both : Runs image loader bytes k k' n (alone i) × HasPages loader k' r = elim cases [
        | inl (many, same) ↦
            let z : fits image loader bytes i ≡ false = ground arith in
            (
              rw (z, same) (Runs-nil image loader bytes h),
              record {
                page = pages.page;
                behind = pages.behind;
                run = rw same (FreeRun-less (omega arith) pages.run);
              },
            )
        | inr (few, enters, tasks, cr3, left) ↦
            let z : fits image loader bytes i ≡ true = ground arith in
            (
              rw z (Runs-one image loader bytes pages.behind cr3 tasks enters),
              record { page = pages.page + 3; behind = omega (arith, pages.behind); run = left },
            )
      ] in
      (k', exec_of k i b e, both.0, both.1)

  -- The loop from module `i` on: the tasks are the modules for which `is_task` holds, and what it
  -- returns is the last "/boot/start.bin".
  pub start_modules-Runs :
      (left i : ℕ) (start : Option ℕ) (k : Kernel) (n : ℕ) {r : ℕ}
      → k.bytes ≡ bytes
      → HasTasks k n
      → HasPages loader k (3 * left + r)
      → 0 < n
      → n + left ≤ 98
      → ((j : ℕ) → i ≤ j → j < i + left → IsInside image loader bytes j)
      → (k' : Kernel) × (start_modules image junk loader left i start k
          ≡ some (find_last left i (is_start junk loader bytes) start, k'))
        × Runs image loader bytes k k' n (such_that left i is_task)
        × HasPages loader k' r
  unfolding start_modules find_last
  start_modules-Runs zero i start k n b h pages pos room inside =
      (k, refl, Runs-nil image loader bytes h, HasPages-less (omega arith) pages)
  start_modules-Runs (suc left) i start k n {r} b h pages pos room inside =
      let here = λ (v : Bool) (e : is_start junk loader bytes i ≡ v).
        ap (λ m. is_start junk loader m i) b ∙ e in
      let picture = λ (v : Bool) (e : is_picture junk loader bytes i ≡ v).
        ap (λ m. is_picture junk loader m i) b ∙ e in
      elim (Bool-cases (is_start junk loader bytes i)) [
        | inl s ↦
            let (k', e, runs, rest) =
              start_modules-Runs left (i + 1) (some i) k n b h (HasPages-less (omega arith) pages)
                pos (omega arith) (λ j lo hi. inside j (omega arith) (omega arith)) in
            (k', rw (here true s, s, start_modules, find_last) e, rw s runs, rest)
        | inr s ↦ elim (Bool-cases (is_picture junk loader bytes i)) [
          | inl p ↦
              let (k', e, runs, rest) =
                start_modules-Runs left (i + 1) start k n b h (HasPages-less (omega arith) pages)
                  pos (omega arith) (λ j lo hi. inside j (omega arith) (omega arith)) in
              (
                k',
                rw (here false s, s, picture true p, start_modules, find_last) e,
                rw (s, p) runs,
                rest,
              )
          | inr p ↦
              let (k1, e1, runs1, pages1) =
                start_module-Runs k n i {r = 3 * left + r} b h (HasPages-less (omega arith) pages)
                  pos (omega arith) (inside i (omega arith) (omega arith)) in
              let few : length (alone i) ≤ 1 = ground arith in
              let (k', e, runs, rest) =
                start_modules-Runs left (i + 1) start k1 (n + length (alone i))
                  (runs1.bytes_same ∙ b) runs1.tasks pages1 (omega arith) (omega arith)
                  (λ j lo hi. inside j (omega arith) (omega arith)) in
              (
                k',
                rw (here false s, s, picture false p, e1, start_modules, find_last) e,
                subst (λ is. Runs image loader bytes k k' n is) (ground arith)
                    (Runs-append image loader bytes runs1 runs),
                rest,
              )
        ]
      ]
