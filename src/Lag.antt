-- ===== src/Lag.antt =====
-- pkg/lag: adaptive.go (Controller), the settlement window that follows the measured lag, and probe.go
-- (Probes), the sample of keys whose lag is measured.
pub mod Controller
pub mod Probes
