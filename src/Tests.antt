-- ===== src/Tests.antt =====
-- The theorems at concrete inputs, with small stand-ins for the code that is not the program's own.
mod Stubs
mod KeyFiles
mod Decisions
mod Logs
mod Statements
mod Exports
mod Queries
mod Devices
mod Tokens
mod Services
mod Shares
mod Network
mod Sessions
mod Admission
mod Shown
