-- ===== src/Web.antt =====
-- internal/web/server.go: the jobs that a scan reports through, the guards of the handlers and the scan requests.
pub mod Jobs
pub mod Requests
pub mod Protocol
pub mod Handlers
pub mod Lifecycle
pub mod Tests
