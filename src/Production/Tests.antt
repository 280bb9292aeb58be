-- ===== src/Production/Tests.antt =====
-- The production chain at one account: an entry that is authorized, reserved and released, and an exit.
mod Scene
mod Account
mod Signing
mod Capital
mod Releases
mod Appends
