-- ===== src/Window.antt =====
-- The rolling windows of poolgate/utils.py and poolgate/tracking/rolling_window.py.
pub mod Recent
pub mod Sliding
pub mod Rolling
