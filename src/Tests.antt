-- ===== src/Tests.antt =====
-- The theorems at concrete inputs, and runs of the definitions.
mod Seqtrack
mod Projection
mod Differ
mod Oracle
mod Reorder
mod Shard
mod Extras
mod Lag
mod Event
mod Sweeper
