-- ===== src/Inventory.antt =====
-- internal/server/web/static/inventory.js: the table of every tracked entry.
pub mod Items
pub mod Filter
pub mod Csv
pub mod Notes
pub mod Tests
