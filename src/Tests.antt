-- ===== src/Tests.antt =====
-- The instances at which the theorems are applied.
mod Fixtures
mod Codec
mod Sessions
mod Commands
mod Process
mod Delivery
mod Reuse
mod Startup
mod Events
mod Shared
mod Collections
