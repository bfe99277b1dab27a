-- ===== src/Tests.antt =====
-- The theorems at concrete inputs.
mod Windows
mod Keys
mod Schedulers
mod Requests
mod Trackers
mod Sessions
mod Backends
mod Repository
mod Calls
mod Models
