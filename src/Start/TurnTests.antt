-- ===== src/Start/TurnTests.antt =====
-- A run of `_main` of main/main.c to the turn of its start program.
use silicio.Strings.{from}
use silicio.Strings.Laws.{IsString, strcmp-length, strcmp-same}
use silicio.Multiboot.{named}
use silicio.Kernel.Exec.{page_count}
use silicio.Bitmap.{BmpHeader}
use silicio.Bitmap.Header.{
  background_name, find_last, is_background, open_mod_bmp, open_mod_bmp_lem,
}
use silicio.Bitmap.Tests.{loader, module_at, picture}
use silicio.Mm.Tests.{eight_mb}
use silicio.Kernel.Schedule.Fair.{KeepsLinked}
use silicio.Kernel.Schedule.{select_task}
use silicio.Start.{System, Junk, open_screen, start_name, controlling, main}
use silicio.Start.Main.{shown_bytes, start_program}
use silicio.Start.First.{all_tasks}
use silicio.Start.Turns.{main-fair}
use silicio.Start.Tests.{image, entry_state, clean, entry_bytes, entry-CanStart, modules-CanRun}
use silicio.Base.{ℕ, zero, suc, refl, inl, inr, true, false, not, some, [], arith, length, ◌+◌}
use silicio.Base.{◌-◌, ◌<◌, ◌≡◌, ◌∷◌, ◌==◌}
use silicio.Base.Bits.{all_below, all_below_sound}

-- The memory before the screen is opened.
abbrev bytes : ℕ → ℕ
bytes = entry_state.kernel.bytes

letters : all_below 15 (λ i. not (start_name i == 0)) ≡ true
unfolding all_below
letters = refl

more_letters : all_below 20 (λ i. not (background_name i == 0)) ≡ true
unfolding all_below
more_letters = refl

start-IsString : IsString start_name 15
start-IsString = record {
  chars =
      λ i h. let e = all_below_sound 15 (λ i. not (start_name i == 0)) i letters h in ground arith;
  ends = refl;
}

background-IsString : IsString background_name 20
background-IsString = record {
  chars = λ i h.
      let e = all_below_sound 20 (λ i. not (background_name i == 0)) i more_letters h in
      ground arith;
  ends = refl;
}

at_first : IsString (from bytes 0x4000) 15
at_first = record {
  chars = λ i h.
      let e : 0x4000 + i - 0x4000 ≡ i = omega arith in
      let ne = start-IsString.chars i h in ground arith;
  ends = refl;
}

at_second : IsString (from bytes 0x5000) 0
at_second = record { chars = λ i h. absurd (omega arith); ends = refl }

first_is_start : named 1 start_name bytes (module_at 0) ≡ true
unfolding named
first_is_start =
    let same = λ (i : ℕ) (h : i < 15).
      let e : 0x4000 + i - 0x4000 ≡ i = omega arith in
      let r : from bytes 0x4000 i ≡ start_name i = ground arith in r in
    rw (
      strcmp-same 1 15 15 (from bytes 0x4000) start_name at_first start-IsString (omega arith)
        (omega arith) (omega arith) refl same)

first_no_picture : named 1 background_name bytes (module_at 0) ≡ false
unfolding named
first_no_picture = rw (
    strcmp-length 1 15 20 (from bytes 0x4000) background_name at_first background-IsString
      (omega arith) (omega arith) (inr (omega arith)))

second_no_start : named 1 start_name bytes (module_at 1) ≡ false
unfolding named
second_no_start = rw (
    strcmp-length 1 0 15 (from bytes 0x5000) start_name at_second start-IsString (omega arith)
      (omega arith) (inl refl))

second_no_picture : named 1 background_name bytes (module_at 1) ≡ false
unfolding named
second_no_picture = rw (
    strcmp-length 1 0 20 (from bytes 0x5000) background_name at_second background-IsString
      (omega arith) (omega arith) (inl refl))

no_picture : (i : ℕ) → i < 2 → is_background clean.bmp loader bytes i ≡ false
no_picture zero h = first_no_picture
no_picture (suc zero) h = second_no_picture
no_picture (suc (suc i)) h = absurd (omega arith)

-- Without a picture the memory is as it was.
plain_screen :
    (junk : Junk) (s : System) (bmp_header : BmpHeader)
    → open_mod_bmp junk.bmp loader s.kernel.bytes bmp_header ≡ (1, bmp_header)
    → (open_screen junk loader bmp_header s).kernel.bytes ≡ s.kernel.bytes
unfolding open_screen
plain_screen junk s bmp_header e = ground arith

bytes-same : shown_bytes eight_mb image clean loader picture (λ a. 0) entry_state ≡ bytes
bytes-same = elim (open_mod_bmp_lem clean.bmp loader bytes picture) [
  | inl p ↦ plain_screen clean entry_state picture p.0
  | inr p ↦ let (i, last, e) = p in absurd (ground (arith, last.found, no_picture i last.below))
]

start_found : start_program eight_mb image clean loader picture (λ a. 0) entry_state ≡ some 0
unfolding find_last
start_found = rw (bytes-same, first_is_start, second_no_start)

-- The second module, and then the start program.
two_tasks : all_tasks image clean loader bytes 0 ≡ 1 ∷ 0 ∷ []
unfolding page_count
two_tasks = rw (first_is_start, second_no_start, second_no_picture)

stays : KeepsLinked (λ des s. s) 5 4
stays = record { linked = λ des s h. h; runs = λ des s h. h; index = λ des s. refl }

two_more : 3 + length (all_tasks image clean loader bytes 0) ≡ 5
two_more = rw two_tasks

main-fair_example :
    (r : ℕ) × (s2 : System) × (r < 3 + length (all_tasks image clean loader entry_bytes 0))
    × (main eight_mb image clean loader picture (λ a. 0) r (λ des s. s) entry_state
        ≡ some (controlling, s2))
    × (select_task s2.kernel ≡ some (104, record s2.kernel { t_indice = 4 }))
main-fair_example =
    main-fair eight_mb image clean loader picture (λ a. 0) entry_state (λ des s. s) 0 4
      entry-CanStart (modules-CanRun entry_bytes) start_found (omega arith)
      (rw (bytes-same, two_more) (omega arith)) (rw (bytes-same, two_more) stays)
