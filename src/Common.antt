-- ===== src/Common.antt =====
-- internal/server/web/static/common.js: what the pages share.
pub mod Expiry
pub mod Chain
pub mod Escape
pub mod Whoami
pub mod Ago
pub mod Colour
mod Tests
