-- ===== src/Tests.antt =====
-- Runs of the code at concrete inputs, with concrete functions for the code that is not here.
mod Data
mod Conversions
mod Questions
mod Messages
mod Settings
mod Clients
mod Stream
mod Sessions
mod Command
mod Calls
