-- ===== src/Tests.antt =====
-- The theorems at concrete inputs.
mod Fixtures
mod Decoder
mod Resilience
mod Requests
mod Storage
mod Server
mod Sharing
mod Wire
mod Elsewhere
mod Wizard
mod Populate
mod Harness
mod Startup
