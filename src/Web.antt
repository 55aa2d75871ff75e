-- ===== src/Web.antt =====
-- platform/web-platform.ts, settings-defaults.ts and settings-migration.ts: the platform of the read-only
-- viewer in a browser.
pub mod Json
pub mod Defaults
pub mod Storage
pub mod Settings
pub mod Requests
pub mod Platform
pub mod Laws
mod Tests
