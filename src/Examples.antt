-- ===== src/Examples.antt =====
-- Concrete runs: each theorem of the development with hypotheses, at an input where they hold.
mod Shell
mod FirstShell
pub mod Dict
mod Network
mod Transfer
mod Queues
mod Ring
mod Lock
mod Tree
mod Files
mod Signals
mod Speed
mod Popen
mod Notify
mod Owned
mod TwoWay
