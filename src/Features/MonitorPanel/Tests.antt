-- ===== src/Features/MonitorPanel/Tests.antt =====
-- web/src/ui/features/monitor-panel.ts: the panel at concrete inputs, and the theorems applied.
use megapet.Common.{ℕ, true, false, Option, none, some, List, [], ◌∷◌, arith}
use megapet.Common.Sample.{sample_num}
use megapet.Engine.Series.{TimeSeries, SeriesPoint}
use megapet.Engine.Series.Compact.{Ascending}
use megapet.Engine.Monitor.{TestParams, down}
use megapet.Features.ModeTabs.{auto}
use megapet.Features.MonitorPanel.State.{MonitorPanel, Env}
use megapet.Features.MonitorPanel.Drawing.{draw}
use megapet.Features.MonitorPanel.Actions as Actions
use megapet.Features.MonitorPanel.Actions.{Action, blank}
use megapet.Features.MonitorPanel.Curve.{draw-Ascending}

abbrev env_at : ℕ → Env (Option ℕ)
env_at t = record {
  clocks = record { now = t; date = 0 };
  recorded = none;
  rect = record { width = some 640; height = some 224 };
}

abbrev params : TestParams
params = record { upload_streams = 4; upload_chunk_bytes = 8388608 }

abbrev point_at : ℕ → ℕ → SeriesPoint (Option ℕ)
point_at t mbps = record { t = t; down = some mbps; up = some 0 }

-- Two samples, written at some time.
abbrev two_samples : ℕ → TimeSeries (Option ℕ)
two_samples written = record {
  points = point_at 1000 90 ∷ point_at 2000 95 ∷ [];
  interval = 1000;
  count = 2;
  began = 0;
  last_write = written;
  max_down = some 95;
  max_up = some 0;
  capacity = 600;
}

abbrev panel : MonitorPanel (Option ℕ)
panel = blank (env_at 0) params ""

-- A session is started and stopped, a test is staged, and the graph is hidden.
abbrev events : List (Env (Option ℕ) × Action (Option ℕ))
events =
    (env_at 10, Actions.clicks_start "")
    ∷ (env_at 20, Actions.clicks_switch down)
    ∷ (env_at 30, Actions.keys_run "")
    ∷ (env_at 40, Actions.session_over)
    ∷ (env_at 50, Actions.blocks true (some (record { down = true; up = false })))
    ∷ (env_at 60, Actions.mode_is auto)
    ∷ (env_at 70, Actions.shows_graph false)
    ∷ []

draw-Ascending_example :
    Ascending 0
      (draw (env_at 2500) (two_samples 2000) (record panel { blocked = true })).picture.drawn
draw-Ascending_example =
    draw-Ascending (env_at 2500) (two_samples 2000) (record panel { blocked = true })
      (omega arith, (omega arith, tt))
