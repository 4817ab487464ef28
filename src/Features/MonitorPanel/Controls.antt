-- ===== src/Features/MonitorPanel/Controls.antt =====
-- web/src/ui/features/monitor-panel.ts: which history is shown, and how the controls are painted.
use megapet.Common.{
  ℕ, ◌+◌, ◌-◌, ltb, ◌==◌, if◌then◌else◌, Bool, true, false, not, ◌&&◌, ◌||◌, none, some, List, [],
  ◌∷◌, ◌++◌, or_else, Num,
}
use megapet.Engine.Series.{TimeSeries, last, size}
use megapet.Engine.Monitor.{Directions, is_bidirectional, elapsed_ms}
use megapet.Visuals.Jog
use megapet.Features.ModeTabs.{auto, same_mode}
use megapet.Features.MonitorPanel.State.{
  MonitorPanel, Call, Env, StartButton, Switch, Layout, head, blurb, controls, plot, warning,
  readout_grid, actions, running_change,
}

unfoldable pub switch_of : (running locked on : Bool) → Switch
switch_of running locked on = record {
  on = on;
  disabled = locked;
  state =
      if locked
      then (if on then "Measuring" else "Set by the test")
      else if on
      then (if running then "Measuring" else "On")
      else "Off";
}

-- The start button of manual mode.
unfoldable pub manual_button : (running blocked idle resumes : Bool) → StartButton
manual_button running blocked idle resumes = record {
  disabled = blocked && not running;
  icon = if running then "stop" else "speed";
  label =
      if running
      then "Pause"
      else if blocked
      then "Speed test running"
      else if idle
      then "Watch idle link"
      else if resumes
      then "Resume"
      else "Start monitoring";
  title =
      if blocked && not running
      then "Wait for the speed test to finish — both would be measuring the same link."
      else "Space";
}

unfoldable pub auto_button : (auto_running : Bool) → StartButton
auto_button true = record { disabled = false; icon = "stop"; label = "Stop"; title = "" }
auto_button false = record { disabled = false; icon = "speed"; label = "Start test"; title = "" }

unfoldable pub layout_of : (compact show_graph : Bool) → Layout
layout_of compact show_graph = record {
  parts =
      head
      ∷ ((if compact then [] else blurb ∷ [])
          ++ (controls
              ∷ ((if show_graph then plot ∷ [] else [])
                  ++ (warning
                      ∷ ((if show_graph then readout_grid ∷ [] else []) ++ (actions ∷ []))))));
  rider = not show_graph;
  history_actions = show_graph;
}

module _ ⦃F : Num⦄ where
  abbrev pub calls : List (Call F.R) → MonitorPanel F.R → MonitorPanel F.R
  calls cs p = record p { log = p.log ++ cs }

  abbrev pub last_t : TimeSeries F.R → ℕ
  last_t series = elim (last series) [ none ↦ 0 | some q ↦ q.t ]

  -- Which of the recorded run and the session is shown while no session runs.
  unfoldable pub newer : (recorded history : TimeSeries F.R) → TimeSeries F.R
  newer recorded history =
      if size recorded == 0
      then history
      else if size history == 0
      then recorded
      else if ltb history.last_write recorded.last_write
      then recorded
      else history

  unfoldable pub source : Env F.R → MonitorPanel F.R → TimeSeries F.R
  source env p = if p.running then p.monitor.series else elim env.recorded [
    | none ↦ p.monitor.series
    | some recorded ↦ newer recorded p.monitor.series
  ]

  unfoldable pub elapsed_for : Env F.R → TimeSeries F.R → MonitorPanel F.R → ℕ
  elapsed_for env series p =
      if p.running then elapsed_ms env.clocks.now p.monitor else elim (last series) [
        | none ↦ 0
        | some q ↦ if p.blocked then q.t + (env.clocks.now - series.last_write) else q.t
      ]

  unfoldable pub newest_ms : Env F.R → MonitorPanel F.R → ℕ
  newest_ms env p =
      let elapsed = elapsed_for env (source env p) p in
      let last = last_t (source env p) in if ltb elapsed last then last else elapsed

  abbrev pub shown : MonitorPanel F.R → Directions
  shown p = or_else p.external p.directions

  abbrev pub locked : MonitorPanel F.R → Bool
  locked p = p.blocked || same_mode p.mode auto

  unfoldable pub paint_directions : MonitorPanel F.R → MonitorPanel F.R
  paint_directions p = record p {
    switch_down = switch_of p.running (locked p) (shown p).down;
    switch_up = switch_of p.running (locked p) (shown p).up;
    warning_hidden = not (is_bidirectional (shown p));
  }

  unfoldable pub update_export_button : Env F.R → MonitorPanel F.R → MonitorPanel F.R
  update_export_button env p =
      let empty = size (source env p) == 0 in
      record p { export_disabled = empty; clear_disabled = empty || p.running }

  unfoldable pub start_button_of : MonitorPanel F.R → StartButton
  start_button_of p =
      if same_mode p.mode auto
      then auto_button p.auto_running
      else manual_button p.running p.blocked (not p.directions.down && not p.directions.up)
          (not (size p.monitor.series == 0))

  -- The treadmill runs for whichever test loads the link, unless the graph is shown.
  abbrev pub jogs : MonitorPanel F.R → Bool
  jogs p = not p.show_graph && (p.running || p.blocked)

  unfoldable pub paint_treadmill : Env F.R → MonitorPanel F.R → MonitorPanel F.R
  paint_treadmill env p = record p {
    treadmill = Jog.set_active env.clocks.now (jogs p) p.treadmill;
  }

  -- The flag, the mascot, the call of `onRunningChange` and the switches.
  unfoldable pub mark_running : Env F.R → Bool → MonitorPanel F.R → MonitorPanel F.R
  mark_running env running p =
      let changed = if p.running then not running else running in
      paint_directions (
        calls (if changed then running_change running ∷ [] else [])
          (paint_treadmill env (record p { running = running })))

  unfoldable pub set_running : Env F.R → Bool → MonitorPanel F.R → MonitorPanel F.R
  set_running env running p =
      let marked = mark_running env running p in
      let painted = record marked { start_button = start_button_of marked } in
      if same_mode p.mode auto then painted else update_export_button env painted

  unfoldable pub lay_out : Env F.R → MonitorPanel F.R → MonitorPanel F.R
  lay_out env p = paint_treadmill env (record p { layout = layout_of p.compact p.show_graph })
