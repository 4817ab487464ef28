-- ===== src/Visuals/Lift.antt =====
-- web/src/ui/visuals/lift: the lift machine.
pub mod Layout
pub mod Reversing
pub mod Car
pub mod Machine
