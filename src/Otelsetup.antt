-- ===== src/Otelsetup.antt =====
-- pkg/otelsetup: what it does with log records of its own, apart from the calls of the OpenTelemetry SDK.
pub mod Sanitize
pub mod Handlers
pub mod Startup
pub mod Requests
