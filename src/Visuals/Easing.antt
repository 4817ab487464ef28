-- ===== src/Visuals/Easing.antt =====
-- web/src/ui/primitives/anim.ts: the easing of the moves.
use megapet.Common.{if◌then◌else◌, Num, lt}
use megapet.Mech.Geometry.{clamp}

module _ ⦃F : Num⦄ where
  -- `-x`
  abbrev pub opposite : F.R → F.R
  opposite x = F.sub (F.of_ℕ 0) x

  abbrev pub cube : F.R → F.R
  cube x = F.pow x (F.of_ℕ 3)

  unfoldable pub stage : (t from to : F.R) → F.R
  stage t from to = clamp (F.div (F.sub t from) (F.sub to from)) (F.of_ℕ 0) (F.of_ℕ 1)

  unfoldable pub ease_in_out : F.R → F.R
  ease_in_out t =
      if lt t (F.div (F.of_ℕ 1) (F.of_ℕ 2))
      then F.mul (F.mul (F.mul (F.of_ℕ 4) t) t) t
      else F.sub (F.of_ℕ 1)
          (F.div (cube (F.add (F.mul (opposite (F.of_ℕ 2)) t) (F.of_ℕ 2))) (F.of_ℕ 2))

  -- With the overshoot that the source takes when none is given, 1.4.
  unfoldable pub ease_out_back : F.R → F.R
  ease_out_back t =
      let overshoot = F.div (F.of_ℕ 14) (F.of_ℕ 10) in
      let back = F.sub t (F.of_ℕ 1) in
      F.add (F.add (F.of_ℕ 1) (F.mul (F.add overshoot (F.of_ℕ 1)) (cube back)))
        (F.mul overshoot (F.pow back (F.of_ℕ 2)))

  unfoldable pub limit_step : (step dt full_ms : F.R) → F.R
  limit_step step dt full_ms = let most = F.div dt full_ms in clamp step (opposite most) most

  unfoldable pub approach : (current target dt tau : F.R) → F.R
  approach current target dt tau =
      F.add current
        (F.mul (F.sub target current) (F.sub (F.of_ℕ 1) (F.exp (F.div (opposite dt) tau))))
