-- ===== src/Tests/Selectors.antt =====
-- The five adapters at concrete calls.
mod Kamino
mod Marginfi
mod Jupiter
mod Drift
mod Maple
