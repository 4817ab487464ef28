-- ===== src/Visuals/LeadingEdge.antt =====
-- web/src/ui/visuals/leading-edge.ts: the newest reading of the graph, drawn ahead of the samples.
--
-- The edge chases its reading on the scale of the plot. `Math.sign(a) * m`, for a number `m` that is
-- not negative, is `signed a m`.
use megapet.Common.{Num, max, min, lt, Bool, true, false, not, if◌then◌else◌}
use megapet.Visuals.Scale.{to_fraction, from_fraction, magnitude}

pub record LeadingEdge (R : Type 0) : Type 0 where
  pub fraction : R
  pub target : R
  pub started : Bool

module _ ⦃F : Num⦄ where
  abbrev pub tau : F.R
  tau = F.of_ℕ 90

  abbrev pub max_fraction_per_second : F.R
  max_fraction_per_second = F.div (F.of_ℕ 34) (F.of_ℕ 100)

  unfoldable pub new : LeadingEdge F.R
  new = record { fraction = F.of_ℕ 0; target = F.of_ℕ 0; started = false }

  unfoldable pub set_target : (mbps : F.R) → LeadingEdge F.R → LeadingEdge F.R
  set_target mbps e =
      let target = to_fraction (if F.is_finite mbps then max (F.of_ℕ 0) mbps else F.of_ℕ 0) in
      if not e.started
      then record { fraction = target; target = target; started = true }
      else record e { target = target }

  unfoldable pub reset : LeadingEdge F.R → LeadingEdge F.R
  reset e = record { fraction = F.of_ℕ 0; target = F.of_ℕ 0; started = false }

  abbrev pub signed : (a m : F.R) → F.R
  signed a m =
      if lt (F.of_ℕ 0) a then m else if lt a (F.of_ℕ 0) then F.sub (F.of_ℕ 0) m else F.mul a m

  -- The time that a frame moves the edge by, and the gap that is left to it.
  abbrev pub step_of : (dt_ms : F.R) → F.R
  step_of dt_ms = max (F.of_ℕ 0) (min (F.of_ℕ 250) dt_ms)

  abbrev pub gap : LeadingEdge F.R → F.R
  gap e = F.sub e.target e.fraction

  abbrev pub eased : (step : F.R) → LeadingEdge F.R → F.R
  eased step e = F.mul (gap e) (F.sub (F.of_ℕ 1) (F.exp (F.div (F.sub (F.of_ℕ 0) step) tau)))

  abbrev pub limit : (step : F.R) → F.R
  limit step = F.div (F.mul max_fraction_per_second step) (F.of_ℕ 1000)

  unfoldable pub advanced : (dt_ms : F.R) → LeadingEdge F.R → LeadingEdge F.R
  advanced dt_ms e =
      let move = eased (step_of dt_ms) e in
      if lt (magnitude (gap e)) (F.div (F.of_ℕ 1) (F.of_ℕ 10000))
      then record e { fraction = e.target }
      else record e {
        fraction = F.add e.fraction (signed move (min (magnitude move) (limit (step_of dt_ms))));
      }

  unfoldable pub current : LeadingEdge F.R → F.R
  current e = from_fraction e.fraction

  unfoldable pub advance : (dt_ms : F.R) → LeadingEdge F.R → LeadingEdge F.R × F.R
  advance dt_ms e = (advanced dt_ms e, current (advanced dt_ms e))
