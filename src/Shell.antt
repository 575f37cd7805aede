-- ===== src/Shell.antt =====
-- The shell of SP_HW4/part2: one module for each of its files.
pub mod Words
pub mod Parse
pub mod Scan
pub mod Pipeline
pub mod Command
pub mod Builtin
pub mod Main
