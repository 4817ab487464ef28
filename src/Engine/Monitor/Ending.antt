-- ===== src/Engine/Monitor/Ending.antt =====
-- monitor.ts: a session that is stopped ends.
use megapet.Common.{Bool, ℕ, ◌-◌, true, false, none, some, ◌≡◌, Num, arith}
use megapet.Engine.Monitor.Legs
use megapet.Engine.Monitor.{
  Monitor, Clocks, Key, down, up, session_resumes, step, stop, emit, sample, conclude, remove,
}
use megapet.Engine.Series.{SeriesPoint, add}
use megapet.Engine.Monitor.{session_clock}
use megapet.Engine.Monitor.Session.{IsSession}
use megapet.Engine.Monitor.Winding.{wind_down, stop-Winds, wind_down-Winds}

module _ ⦃F : Num⦄ where
  abbrev pub floor_point : ℕ → Monitor F.R → SeriesPoint F.R
  floor_point now m = record { t = session_clock now m; down = F.of_ℕ 0; up = F.of_ℕ 0 }

  pub conclude-fields :
      (c : Clocks) (m : Monitor F.R)
      → ((conclude c m).running ≡ m.running)
        × ((conclude c m).handlers ≡ false)
        × ((conclude c m).sampler ≡ none)
        × ((conclude c m).wakes ≡ m.wakes)
        × ((conclude c m).timers ≡ elim m.sampler [ none ↦ m.timers | some t ↦ remove t m.timers ])
  unfolding conclude sample emit
  conclude-fields c m = ground arith

  conclude-series :
      (c : Clocks) (m : Monitor F.R)
      → m.legs_down.controller ≡ none
      → m.legs_up.controller ≡ none
      → (conclude c m).series ≡ add (floor_point c.now m) c.date c.now m.series
  unfolding conclude sample emit Legs.live_mbps
  conclude-series c m p q = ground arith

  -- Stopping a session that runs ends it, once the phases have ended, in whichever order they do:
  -- the promise of `start` resolves once, the handlers are let go, the interval that the session had
  -- is cleared and no other, and the graph gets one last point, at the floor, at the session's clock.
  pub stop-ends :
      (c : Clocks) (first : Key) (at_once : Bool) (m : Monitor F.R)
      → m.running ≡ true
      → m.stopping ≡ false
      → IsSession m
      → let n = step c session_resumes (wind_down first at_once (stop m)) in
        (n.running ≡ false)
        × (n.handlers ≡ false)
        × (n.sampler ≡ none)
        × (n.timers ≡ elim m.sampler [ none ↦ m.timers | some t ↦ remove t m.timers ])
        × (n.wakes ≡ m.wakes)
        × (n.series ≡ add (floor_point c.now m) c.date c.now m.series)
  unfolding step
  stop-ends c first at_once m r s v =
      let (h, o) = wind_down-Winds first at_once m (stop m) (stop-Winds m r s v) in
      let q = wind_down first at_once (stop m) in
      let k = h.kept in
      ground (
        arith,
        o.running,
        o.wakes,
        k.series,
        k.sampler,
        k.timers,
        k.started_at,
        k.time_base,
        conclude-fields c (record q { wakes = q.wakes - 1 }),
        conclude-series c (record q { wakes = q.wakes - 1 }) (o.off down) (o.off up),
      )
