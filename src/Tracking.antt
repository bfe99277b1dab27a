-- ===== src/Tracking.antt =====
-- poolgate/tracking.
pub mod Usage
pub mod Request
pub mod Token
pub mod Account
pub mod Manager
