-- ===== src/Tests.antt =====
-- Runs at concrete inputs: one world for the tests, and the theorems applied in it.
mod Worlds
mod States
mod Settings
mod Commands
mod Runs
mod Ends
mod Files
mod Notices
mod Projects
