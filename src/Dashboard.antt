-- ===== src/Dashboard.antt =====
-- The cards of internal/server/web/static/dashboard.js.
pub mod Calendar
pub mod Cards
pub mod Alerts
pub mod Health
pub mod Edit
pub mod Found
pub mod Swipe
pub mod Tracked
