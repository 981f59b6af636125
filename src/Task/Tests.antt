-- ===== src/Task/Tests.antt =====
-- Runs of the task tables of exec/exec.c.
use silicio.Mm.Paging.Identity.{tables_at}
use silicio.Mm.Tests.{direct, direct-IsIdentity}
use silicio.Task.{Tss, Descriptor}
use silicio.Task.Gdt.{Gdt, IsPrefix}
use silicio.Task.Space.{build_space, check_word}
use silicio.Task.Space.Build.{IsSpace, Placed, build_space-IsSpace}
use silicio.Task.Space.Isolation.{page_of, in_page, check_word-IsSpace}
use silicio.Base.{refl, inr, arith, ◌+◌, ◌*◌, ◌/◌, ◌≡◌}

abbrev pub blank_tss : Tss
blank_tss = record {
  b_link = 0;
  n = 0;
  esp0 = 0;
  ss0 = 0;
  n0 = 0;
  esp1 = 0;
  ss1 = 0;
  n1 = 0;
  esp2 = 0;
  ss2 = 0;
  n2 = 0;
  cr3 = 0;
  eip = 0;
  eflag = 0;
  eax = 0;
  ecx = 0;
  edx = 0;
  ebx = 0;
  esp = 0;
  ebp = 0;
  esi = 0;
  edi = 0;
  es = 0;
  n3 = 0;
  cs = 0;
  n4 = 0;
  ss = 0;
  n5 = 0;
  ds = 0;
  n6 = 0;
  fs = 0;
  n7 = 0;
  gs = 0;
  n8 = 0;
  ldt = 0;
  n9 = 0;
  n10 = 0;
  bit_map = 0;
  pag_mem = λ j. 0;
  pag_virtual = λ j. 0;
  pag_stack = 0;
  iobp = λ j. 0;
  fin = 0;
}

abbrev pub blank_entry : Descriptor
blank_entry = record { lim_l = 0; base_l = 0; base_m = 0; acceso = 0; lim_h = 0; base_h = 0 }

abbrev pub new_gdt : Gdt
new_gdt i = blank_entry

pub new_gdt-IsPrefix : IsPrefix new_gdt 4
new_gdt-IsPrefix = record {
  low = omega arith;
  taken = λ i a b. absurd (omega arith);
  free = λ i a. refl;
}

-- A program of two pages, with its tables behind the kernel's.
placed : Placed 3000 3001 3002 1008
placed = record {
  dir_out = inr (omega arith);
  tab_out = inr (omega arith);
  differ = λ e. absurd (omega arith);
  dir_in = omega arith;
  tab_in = omega arith;
  stack_in = omega arith;
  kernel_in = omega arith;
}

build_space_example :
    IsSpace 2
      (λ j. 300 + j)
      3000
      3001
      3002
      1008
      (build_space 2 (λ j. 300 + j) 3000 3001 3002 (tables_at 1008) direct)
build_space_example =
    build_space-IsSpace 2 (λ j. 300 + j) 3000 3001 3002 1008 direct direct-IsIdentity placed
      (omega arith) (λ k h. omega arith)

-- The second page of the program.
check_word_example :
    check_word
      (build_space 2 (λ j. 300 + j) 3000 3001 3002 (tables_at 1008) direct)
      (3000 * 4096)
      0x30_1234
    ≡ in_page (page_of 2 (λ j. 300 + j) 3002 (0x30_1234 / 4096)) 0x30_1234
check_word_example =
    check_word-IsSpace 2 (λ j. 300 + j) 3000 3001 3002 1008
      (build_space 2 (λ j. 300 + j) 3000 3001 3002 (tables_at 1008) direct)
      (build_space-IsSpace 2 (λ j. 300 + j) 3000 3001 3002 1008 direct direct-IsIdentity placed
        (omega arith) (λ k h. omega arith))
      placed (omega arith) (λ k h. omega arith) 0x30_1234 (omega arith)
