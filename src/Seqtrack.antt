-- ===== src/Seqtrack.antt =====
-- pkg/seqtrack: sequence numbers, gaps and epochs of each publisher.
pub mod GapSet
pub mod Tracker
