-- ===== src/Visuals.antt =====
-- web/src/ui/visuals: what the client shows of a measurement.
pub mod Graph
pub mod Viewport
pub mod Easing
pub mod Scale
pub mod Move
pub mod Pointer
pub mod Lift
pub mod LeadingEdge
pub mod Jog
