-- ===== src/Transfer.antt =====
-- SP_HW9/54: svshm_xfr_writer.c and svshm_xfr_reader.c, which pass the bytes of the writer's standard
-- input through shared memory to the reader's standard output, in turns that two System V semaphores
-- give (binary_sems.c, svshm_xfr.h). A turn is one call or one test of a process; what the system
-- answers to the call is the turn's argument.
pub mod State
pub mod Turns
pub mod Control
pub mod Laws
pub mod Reached
pub mod Measure
pub mod Ends
pub mod Counted
pub mod Counting
pub mod Counts
