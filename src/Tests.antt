-- ===== src/Tests.antt =====
-- The theorems at concrete inputs, and runs of the definitions.
mod Chunking
mod Transfer
mod Server
mod Filters
mod Pump
mod Stores
mod Assets
