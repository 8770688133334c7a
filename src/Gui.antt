-- ===== src/Gui.antt =====
-- The desktop client: gui/src.
pub mod Json
pub mod Status
pub mod Config
pub mod Client
pub mod Window
pub mod Options
