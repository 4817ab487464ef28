-- ===== src/Features.antt =====
-- web/src/ui/features: the panels' logic.
pub mod TestController
pub mod ModeTabs
pub mod Hero
pub mod MonitorPanel
pub mod GraphModal
pub mod Shortcuts
