-- ===== src/Dict/Remote.antt =====
-- The dictionary of SP_HW11 over a network: servers, clients, and both together.
pub mod Memory
pub mod Serve
pub mod Ask
pub mod Session
