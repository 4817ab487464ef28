-- ===== src/Features/MonitorPanel.antt =====
-- web/src/ui/features/monitor-panel.ts: the panel of the manual mode, and of the graph.
--
-- The callbacks of the page are a log of calls, which the page takes up. The handlers that the panel
-- gives to the monitor are called by `deliver`. `run` is cut where it waits for the monitor: the
-- rest of it is `session_ends`. A frame that the browser is asked for is `frame`.
pub mod State
pub mod Controls
pub mod Drawing
pub mod Gestures
pub mod Actions
pub mod Painted
pub mod Looking
pub mod Repainted
pub mod Prompt
pub mod Shown
pub mod Told
pub mod Steady
pub mod Curve
mod Tests
use Prim.Native.String.{String}
use Prim.Native.String as Text
use Prim.Native.Nat.{Ordering}
use megapet.Common.{
  ℕ, ◌+◌, ltb, ◌==◌, if◌then◌else◌, Bool, true, false, not, ◌&&◌, ◌||◌, Option, none, some, List,
  [], ◌∷◌, ◌++◌, length, or_else, Num,
}
use megapet.Engine.Series.{TimeSeries}
use megapet.Engine.Monitor as Engine
use megapet.Engine.Monitor.{
  Monitor, MonitorUpdate, Directions, Event, Key, down, up, starts, sets, stops, clears, fires,
  ticks, fails, ends, leg_resumes, session_resumes, on_update, on_sample, on_error,
  describe_directions, describe_error,
}
use megapet.Visuals.Graph as Graph
use megapet.Visuals.Viewport.{same}
use megapet.Visuals.LeadingEdge.{reset}
use megapet.Visuals.Jog
use megapet.Features.ModeTabs.{Mode, auto, manual, same_mode}
use megapet.Features.MonitorPanel.State.{
  MonitorPanel, Call, Env, readings, notify, announce, announce_exported, download_csv, runs,
}
use megapet.Features.MonitorPanel.Controls.{calls, source, paint_directions, set_running, lay_out}
use megapet.Features.MonitorPanel.Drawing.{draw, refresh, measure}

abbrev pub started_message : Directions → String
started_message d = Text.◌++◌ (Text.◌++◌ "Manual mode started: " (describe_directions d)) "."

-- `a === b`
abbrev pub same_text : String → String → Bool
same_text a b = elim (Text.compare a b) [ Ordering.eq ↦ true | _ ↦ false ]

module _ ⦃F : Num⦄ where
  abbrev pub set_title : String → MonitorPanel F.R → MonitorPanel F.R
  set_title text p = record p { title = text }

  unfoldable pub set_mode : Env F.R → Mode → MonitorPanel F.R → MonitorPanel F.R
  set_mode env mode p =
      if same_mode p.mode mode
      then p
      else set_running env p.running (paint_directions (record p { mode = mode }))

  -- `a === 0`
  abbrev pub is_zero : F.R → Bool
  is_zero a = same a (F.of_ℕ 0)

  unfoldable pub set_external_live : (d u : F.R) → MonitorPanel F.R → MonitorPanel F.R
  set_external_live d u p = if not p.blocked then p else record p {
    edge_down = if is_zero d then reset p.edge_down else p.edge_down;
    edge_up = if is_zero u then reset p.edge_up else p.edge_up;
    live_down = d;
    live_up = u;
    readouts = record p.readouts { down = some d; up = some u; both = some (F.add d u) };
    treadmill = Jog.set_rate (F.add d u) p.treadmill;
  }

  unfoldable pub set_auto_running : Env F.R → Bool → MonitorPanel F.R → MonitorPanel F.R
  set_auto_running env running p = set_running env p.running (record p { auto_running = running })

  -- `layOut`, `measure` and `refresh`.
  unfoldable pub relaid : Env F.R → MonitorPanel F.R → MonitorPanel F.R
  relaid env p = refresh env (measure env (lay_out env p))

  unfoldable pub set_compact : Env F.R → Bool → MonitorPanel F.R → MonitorPanel F.R
  set_compact env compact p =
      let changed = if p.compact then not compact else compact in
      if changed then relaid env (record p { compact = compact }) else p

  unfoldable pub set_show_graph : Env F.R → Bool → MonitorPanel F.R → MonitorPanel F.R
  set_show_graph env show p =
      let changed = if p.show_graph then not show else show in
      if changed then relaid env (record p { show_graph = show }) else p

  unfoldable pub apply_update : MonitorUpdate F.R → MonitorPanel F.R → MonitorPanel F.R
  apply_update u p = calls (readings u.down_mbps u.up_mbps ∷ []) (record p {
    live_down = if u.directions.down then u.down_mbps else F.of_ℕ 0;
    live_up = if u.directions.up then u.up_mbps else F.of_ℕ 0;
    treadmill = Jog.set_rate (F.add u.down_mbps u.up_mbps) p.treadmill;
    readouts = record p.readouts {
      down = some u.down_mbps;
      up = some u.up_mbps;
      both = some (F.add u.down_mbps u.up_mbps);
      moved = some (u.down_bytes + u.up_bytes);
    };
  })

  -- The handlers that `run` gives to the monitor.
  unfoldable pub handle : Engine.Call F.R → MonitorPanel F.R → MonitorPanel F.R
  handle (on_update u) p = apply_update u p
  handle (on_sample s) p = p
  handle (on_error message) p = calls (notify (Text.◌++◌ "Monitor stopped: " message) ∷ []) p
  handle other_call p = calls (runs other_call ∷ []) p

  unfoldable pub deliver : List (Engine.Call F.R) → MonitorPanel F.R → MonitorPanel F.R
  deliver [] p = p
  deliver (c ∷ cs) p = deliver cs (handle c p)

  -- A turn of the monitor, with the handlers that it calls.
  unfoldable pub engine : Env F.R → Event F.R → MonitorPanel F.R → MonitorPanel F.R
  engine env e p =
      let m = Engine.step env.clocks e p.monitor in
      deliver m.log (record p { monitor = record m { log = [] } })

  unfoldable pub start_frames : MonitorPanel F.R → MonitorPanel F.R
  start_frames p = record p { frame = true }

  unfoldable pub stop_frames : MonitorPanel F.R → MonitorPanel F.R
  stop_frames p = record p { frame = false }

  unfoldable pub frame : Env F.R → MonitorPanel F.R → MonitorPanel F.R
  frame env p = if p.frame then refresh env p else p

  -- The frame loop belongs to whichever test loads the link.
  unfoldable pub keep_frames : Env F.R → MonitorPanel F.R → MonitorPanel F.R
  keep_frames env p = if p.blocked || p.running then start_frames p else refresh env (stop_frames p)

  unfoldable pub set_blocked :
      Env F.R → Bool → Option Directions → MonitorPanel F.R → MonitorPanel F.R
  set_blocked env reason directions p = keep_frames env (
      set_running env p.running (
        paint_directions
          (record p { blocked = reason; external = if reason then directions else none })))

  unfoldable pub clear : Env F.R → MonitorPanel F.R → MonitorPanel F.R
  clear env p = refresh env (engine env clears p)

  unfoldable pub press_clear : Env F.R → MonitorPanel F.R → MonitorPanel F.R
  press_clear env p = if p.clear_disabled then p else clear env p

  -- The history of a monitor that has measured nothing.
  abbrev pub fresh_series : (date : ℕ) → TimeSeries F.R
  fresh_series date = record {
    points = [];
    interval = Engine.sample_ms;
    count = 0;
    began = date;
    last_write = 0;
    max_down = F.of_ℕ 0;
    max_up = F.of_ℕ 0;
    capacity = Engine.series_capacity;
  }

  -- A session is measured with the monitor of its server, whose history it resumes.
  unfoldable pub pointed_at : Env F.R → (base : String) → MonitorPanel F.R → MonitorPanel F.R
  pointed_at env base p = if same_text base p.monitor_base then p else record p {
    monitor = Engine.new p.monitor.params (fresh_series env.clocks.date) env.clocks.date;
    monitor_base = base;
  }

  -- `run` up to its wait.
  unfoldable pub run : Env F.R → (base : String) → MonitorPanel F.R → MonitorPanel F.R
  run env base p =
      if p.running
      then p
      else engine env (starts p.directions) (
          start_frames (
            pointed_at env base (
              calls (announce (started_message p.directions) ∷ [])
                (record (set_running env true p) { empty_note_hidden = true }))))

  -- The rest of `run`, which is due once the monitor has ended its session.
  unfoldable pub session_ends : Env F.R → MonitorPanel F.R → MonitorPanel F.R
  session_ends env p =
      if p.running && ltb 0 p.monitor.wakes
      then calls (announce "Manual mode stopped." ∷ [])
          (refresh env (set_running env false (stop_frames (engine env session_resumes p))))
      else p

  unfoldable pub stop : Env F.R → MonitorPanel F.R → MonitorPanel F.R
  stop env p = engine env stops p

  unfoldable pub toggle : Env F.R → (base : String) → MonitorPanel F.R → MonitorPanel F.R
  toggle env base p = if p.running then stop env p else run env base p

  unfoldable pub toggle_run : Env F.R → (base : String) → MonitorPanel F.R → Bool × MonitorPanel F.R
  toggle_run env base p = if p.blocked then (false, p) else (true, toggle env base p)

  -- With the call of `onAutoToggle` that the click makes, if it makes one.
  unfoldable pub press_start :
      Env F.R → (base : String) → MonitorPanel F.R → Option Bool × MonitorPanel F.R
  press_start env base p =
      if p.start_button.disabled
      then (none, p)
      else if same_mode p.mode auto
      then (some (not p.auto_running), p)
      else (none, toggle env base p)

  abbrev pub flipped : Key → Directions → Directions
  flipped down d = record d { down = not d.down }
  flipped up d = record d { up = not d.up }

  -- Mid-session this starts or stops a direction.
  unfoldable pub redirect : Env F.R → MonitorPanel F.R → MonitorPanel F.R
  redirect env p = if p.running then engine env (sets p.directions) p else p

  unfoldable pub flip : Env F.R → Key → MonitorPanel F.R → MonitorPanel F.R
  flip env key p = refresh env (
      redirect env (
        set_running env p.running
          (paint_directions (record p { directions = flipped key p.directions }))))

  unfoldable pub toggle_direction : Env F.R → Key → MonitorPanel F.R → Bool × MonitorPanel F.R
  toggle_direction env key p =
      if p.blocked || same_mode p.mode auto then (false, p) else (true, flip env key p)

  abbrev pub switch_disabled : Key → MonitorPanel F.R → Bool
  switch_disabled down p = p.switch_down.disabled
  switch_disabled up p = p.switch_up.disabled

  unfoldable pub press_switch : Env F.R → Key → MonitorPanel F.R → MonitorPanel F.R
  press_switch env key p = if switch_disabled key p then p else flip env key p

  unfoldable pub export_calls : TimeSeries F.R → Option String → List (Call F.R)
  export_calls series peer =
      if length series.points == 0
      then notify "Nothing measured yet." ∷ []
      else download_csv series.points series.began
          (record {
            down = Graph.has_data series.points Graph.down;
            up = Graph.has_data series.points Graph.up;
          })
          (or_else peer "this server")
        ∷ announce_exported (length series.points)
        ∷ []

  unfoldable pub export_csv : Env F.R → Option String → MonitorPanel F.R → MonitorPanel F.R
  export_csv env peer p = calls (export_calls (source env p) peer) p

  unfoldable pub press_export : Env F.R → Option String → MonitorPanel F.R → MonitorPanel F.R
  press_export env peer p = if p.export_disabled then p else export_csv env peer p

  unfoldable pub destroy : Env F.R → MonitorPanel F.R → MonitorPanel F.R
  destroy env p = stop env (record (stop_frames p) { treadmill = Jog.stop p.treadmill })
