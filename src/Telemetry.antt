-- ===== src/Telemetry.antt =====
-- internal/telemetry: the instruments, the provider and the exporters.
pub mod Metrics
pub mod Provider
pub mod Otlp
pub mod Shutdown
pub mod Server
pub mod Instruments
