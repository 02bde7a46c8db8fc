-- ===== src/Dispatcher/Lifecycle.antt =====
-- How the dispatcher's accounts come to be and change: what each administrative instruction does,
-- and what holds in every world that the instructions can reach.
pub mod Toggling
pub mod Registering
pub mod Founding
pub mod Steps
pub mod Quiet
pub mod Changes
pub mod Safety
pub mod Authority
pub mod Pausing
pub mod Uniqueness
pub mod Liveness
