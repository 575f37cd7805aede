-- ===== src/Process.antt =====
-- SP_HW3: programs that read /proc. Status is what they read of a process, Tree is hw3_part2.c.
pub mod Status
pub mod OpenFiles
pub mod Owned
pub mod Tree
