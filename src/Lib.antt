-- ===== src/Lib.antt =====
-- Silicio: a verification library for the microkernel.
--
-- The program is a small kernel for the 386 in protected mode: mm/mm.c hands out physical pages and
-- builds the kernel's page tables; exec/exec.c keeps the tasks, starts programs in address spaces of
-- their own, passes calls between programs and drivers, and selects the next task; stdio/stdio.c has
-- the console and the string functions; file/file.c draws the picture behind it; fd/fd.c drives the
-- floppy disk; main/main.c makes the font and starts it all. fs/fs.c, a program of its own, finds a
-- file in an ext2 image.
--
-- Which file models what:
--   Base            shared names, tests, bytes, bits, arrays as functions; no code of the program
--   Mm              mm/mm.c: `set_mem`, `unset_mem`, `buscar_mem` on the bitmap `mem_map`
--   Mm/Testmem      `testmem`, over a memory bus (`Ram`) that is a parameter
--   Mm/Boot         `ini_map` and `ini_mm`
--   Mm/Paging       `ini_pag`, and the walk of the tables
--   Strings         stdio/stdio.c: `strlen`, `strcmp`, `strcpy`, `strcat`
--   Font            main/main.c: the bitmaps (Font/Lower, Upper, Signs) and `open_mod_font`
--                   (Font/Table); stdio/stdio.c: `bmp2graf` (Font/Draw)
--   Task            include/tss.h, include/gdt.h, the `run` of exec/exec.c
--   Task/Gdt        `set_desc_tss`, `set_desc_ldt`, `ini_ldt`
--   Task/TssTable   `clear_tss`, `set_tss`
--   Task/Space      the page tables that `exec` writes, and `check_addr`
--   Kernel          the globals of exec/exec.c, `tarea_libre`, `driver_libre`
--   Kernel/Exec     `exec`, `execd`, `execs`
--   Kernel/Calls    `sys_wait` and what the calls share; Kernel/Calls/Transfer: `sys_read`,
--                   `sys_write`, `sys_seek` and `sys_ret`
--   Kernel/Calls/Memory  `sys_mem`; Kernel/Calls/Registry: `sys_reg` and `sys_open`
--   Kernel/Calls/Dispatch  `sys_call`, one round of its loop; Kernel/Calls/Keeps and the files Keeps
--                   below it: what a call leaves as it was
--   Kernel/Schedule `task_control`: the selection of the next task, and its rounds
--   Kernel/Ports    `set_port` and `unset_port`
--   Kernel/Boot     `ini_tss`
--   Kernel/Soft     `int_soft_speed`
--   Interrupts      int/int.c, include/idt.h, and `set_8259` of stdio/stdio.c
--   Console         stdio/stdio.c: `itoa` (Console/Numeral), `memcpy` and `memset` (Console/Memory),
--                   `putc`, `tputc` and `cls` (Console/Screen), `printk` (Console/Print)
--   Ext2            fs/fs.c, a reader of an ext2 image; Ext2/Directory: `string2dir`;
--                   Ext2/Lookup: `string2file_desc`; Ext2/Program: `main`, as `fs_main`
--   Multiboot       include/multiboot.h: the record that the loader leaves
--   Bitmap          file/file.c: `bmp2vbe`; Bitmap/Header: `open_mod_bmp`
--   Floppy          fd/fd.c, on ports that are a parameter
--   Start           main/main.c: `_main` (as `main`) and `open_mod_vbe`; Start/KernelTasks: the tasks of
--                   the kernel; Start/Ready: the kernel before its modules; Start/Modules, Start/Order
--                   and Start/First: how the modules become tasks; Start/FirstTurn, Start/Main and
--                   Start/Turns: the whole
-- The files named Tests hold concrete runs.
--
-- How the parts meet: `exec` asks the allocator for pages (`request`, the pair `buscar_mem`,
-- `set_mem`), copies the tables that `ini_pag` made, and enters the task in `tss_p`, the GDT and
-- `r_tareas`; the calls reach a task's memory through `check_addr`, which walks the tables that `exec`
-- wrote. `sys_call` reads the registers from the `tss` of the caller and makes the call; `sys_reg` keeps
-- the name of a driver with the string functions, and `sys_open` compares it. `int_soft_speed` hands
-- interrupts and ports to the tasks, by `int_up` and `set_port`. `printk` makes its numerals with
-- `itoa` and hands its characters to `putc`, which draws them with `bmp2graf`. `_main` makes the
-- font, opens the screen and the picture, starts the allocator behind the last module, the interrupt
-- table, the tables of tasks and the page tables, starts the three tasks of the kernel by `execs` and
-- the modules by `exec`, and ends in `task_control`.
--
-- How state is kept: a C function is a function from the state to its result and the new state. An
-- access outside `mem_map`, `r_port`, `r_int`, `r_pipe` or the port map of a `tss`, or through a null
-- pointer, is `none`, and so is a read behind the format of `printk`, a division by 0, a page table
-- on a page that was taken already, and a copy of a driver's bytes over those of the kernel itself
-- (`own`); the other arrays are functions from an index. `unsigned long` and `int` have 32 bits and
-- wrap where the code can wrap; an `int` is its bit pattern. `char` is signed. A `tss *` is an
-- index of `tss_p`, `none` the null pointer; other pointers are addresses. Physical memory stands
-- in `Kernel` in three views, the words of page tables, bytes, and the `sys_param` records; a write
-- in one view is not seen in another, so that nothing is said of a program that has a record of a
-- driver on page tables, on the tables of the kernel or on the bytes of a buffer. What the linker
-- decides is the record `Layout`, or the argument `kernel_fin`, or for `_main` the record `Image`;
-- the handlers of interrupts are the record `Handlers`. A variable of the C code that is read
-- before it has a value is an argument `junk`. The bytes sent to ports are a list; for the floppy
-- disk the ports are a parameter. The record of the loader is `Loader`, with what its pointers lead
-- to. `testmem` works on a memory of its own in the model, which it leaves as it was.
-- `task_control` and `main` take the number of rounds of the endless loop, and what the tasks do between
-- a jump and the jump back as a function.
--
-- Loops are recursion on the rounds left; five run on fuel. The `while` of `testmem` has `probe_fuel`,
-- 4097 rounds: a step of 1 MB crosses 4 GB in 4096, and the later steps of 1 KB and 1 byte start
-- at most 1 MB and 1 KB below the top. The search of `task_control` has `select_fuel`, 200 rounds:
-- one pass to the end of the table of 100 and one from its start. The digits of `itoa` have 10: a word
-- of 32 bits has no more. `string2dir` has one round more than the size of the directory: an entry of a
-- length above 0 takes a byte at least. The copy of the name in `fs_main` has the 255 places of its
-- array, behind which it is `none`. The `do` loops of `fd_out` and `fd_in` have the 1000000 rounds of
-- the code.
--
-- Not modelled: asm/boot.S and the inline assembly (task switches, `cr3`, `inb` and `outb`); the
-- messages of the other functions; `int_hard_17` and `sys_control`, which are jumps and loads of `cr3`;
-- the delays of fd/fd.c; and keyb/keyb.c, a test loop.
pub mod Base
pub mod Mm
pub mod Strings
pub mod Font
pub mod Task
pub mod Kernel
pub mod Interrupts
pub mod Console
pub mod Ext2
pub mod Multiboot
pub mod Bitmap
pub mod Start
pub mod Floppy
