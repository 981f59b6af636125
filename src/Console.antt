-- ===== src/Console.antt =====
-- The console of stdio/stdio.c.
pub mod Numeral
pub mod Memory
pub mod Screen
pub mod Print
