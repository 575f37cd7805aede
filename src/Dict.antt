-- ===== src/Dict.antt =====
-- The dictionary of SP_HW4/part3 and SP_HW11: records of fixed length, the program that writes them,
-- and the versions of `lookup`.
pub mod Record
pub mod Search
pub mod Linear
pub mod Convert
pub mod Server
pub mod Client
pub mod Remote
pub mod Prompt
