-- ===== src/Mech.antt =====
-- web/src/mech: the mechanism that the visuals draw.
pub mod Geometry
pub mod Drive
