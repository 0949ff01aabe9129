-- ===== src/Tests.antt =====
-- Concrete inputs, and the theorems at them.
pub mod Data
pub mod JsonLines
pub mod IngestTests
pub mod ServiceTests
pub mod TleTests
pub mod TelemetryTests
pub mod SwarmTests
pub mod ChaosTests
pub mod LaunchTests
