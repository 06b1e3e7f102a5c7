-- ===== src/Window.antt =====
-- internal/window: the periods in which students may submit.
pub mod Service
