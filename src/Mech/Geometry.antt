-- ===== src/Mech/Geometry.antt =====
-- web/src/mech/geometry.ts: the arithmetic that the moving parts use.
use megapet.Common.{Num, max, min}

module _ ⦃F : Num⦄ where
  unfoldable pub clamp : (value lo hi : F.R) → F.R
  clamp value lo hi = min hi (max lo value)

  unfoldable pub lerp : (from to t : F.R) → F.R
  lerp from to t = F.add from (F.mul (F.sub to from) t)

  abbrev pub to_radians : F.R → F.R
  to_radians degrees = F.div (F.mul degrees F.pi) (F.of_ℕ 180)
