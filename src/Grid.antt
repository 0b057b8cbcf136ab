-- ===== src/Grid.antt =====
-- The dashboard's widget grid: internal/server/web/static/widgets.js.
pub mod Rect
pub mod Card
pub mod Resolve
pub mod Columns
pub mod Compact
pub mod Place
pub mod Storage
pub mod Layout
pub mod Actions
mod Tests
