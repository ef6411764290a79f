-- ===== src/Worker.antt =====
-- The worker (worker/incident_worker).
pub mod Contracts
pub mod Plan
pub mod Circuit
pub mod Redaction
pub mod Session
pub mod Connectors
pub mod Gather
pub mod Assemble
pub mod Live
pub mod Api
pub mod Report
pub mod Investigation
pub mod Process
pub mod Replay
pub mod Artifacts
pub mod Cache
pub mod Samples
