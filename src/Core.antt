-- ===== src/Core.antt =====
-- web/src/core and web/src/routing: the stored choices, and the routes.
pub mod Preferences
pub mod Router
