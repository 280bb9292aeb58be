-- ===== src/Production.antt =====
-- The production authority chain of kairos_execution: typed messages, signing authorization, the
-- account's risk reservations with their database guard, operator history, accounting and claims.
pub mod Records
pub mod Messages
pub mod Authorization
pub mod Verification
pub mod Database
pub mod Decimal
pub mod Limits
pub mod Guard
pub mod Lineage
pub mod Reserve
pub mod Claims
pub mod Accounting
pub mod Release
pub mod Operator
pub mod Flow
pub mod Tests
