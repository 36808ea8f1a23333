-- ===== src/Examples.antt =====
-- Each theorem that has hypotheses, at a concrete input where they hold, and tests of the model.
pub mod Nines
pub mod Toy
pub mod Deshredding
pub mod Forwarding
pub mod Heartbeats
pub mod Tokens
pub mod Serving
pub mod Reporting
pub mod Piped
pub mod Groups
pub mod Starting
