-- ===== src/Simulation.antt =====
-- The isolated market-data simulator (kairos_execution/simulation).
pub mod Models
pub mod Depth
pub mod Walk
pub mod Issues
pub mod Fill
pub mod Session
mod Tests
