-- ===== src/Tests.antt =====
-- The theorems at concrete inputs.
mod Encryption
mod Tuples
mod Keys
mod Forks
mod Files
mod Readers
mod Locks
mod Compaction
mod Scans
mod HotChains
mod Freezing
mod Vacuuming
