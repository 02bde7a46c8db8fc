-- ===== src/Dispatcher/Directory.antt =====
-- The accounts of the dispatcher as a directory of adapters: what stands for a program and an
-- authority, whatever the addresses.
pub mod Addresses
pub mod Views
pub mod Moves
pub mod Runs
