-- ===== src/Features/MonitorPanel/Actions.antt =====
-- web/src/ui/features/monitor-panel.ts: a new panel, and what can happen to one.
use Prim.Native.String.{String}
use megapet.Common.{if◌then◌else◌, Bool, true, false, Option, none, List, [], ◌∷◌, Num}
use megapet.Engine.Monitor as Engine
use megapet.Engine.Monitor.{
  Directions, Event, Key, TestParams, starts, sets, stops, clears, fires, ticks, fails, ends,
  leg_resumes, session_resumes,
}
use megapet.Visuals.Viewport as Viewport
use megapet.Visuals.LeadingEdge as LeadingEdge
use megapet.Visuals.Jog
use megapet.Features.ModeTabs.{Mode, manual}
use megapet.Features.MonitorPanel.State.{MonitorPanel, Env}
use megapet.Features.MonitorPanel.Controls.{paint_directions, set_running, lay_out, layout_of}
use megapet.Features.MonitorPanel.Drawing.{refresh, measure, resized}
use megapet.Features.MonitorPanel.Gestures.{Drag, Gesture, gesture}
use megapet.Features.MonitorPanel.{
  set_mode, set_external_live, set_auto_running, set_compact, set_show_graph, set_blocked, engine,
  frame, press_clear, press_start, press_switch, press_export, toggle_run, toggle_direction,
  session_ends, stop, fresh_series,
}

module _ ⦃F : Num⦄ where
  -- The fields before the constructor paints anything.
  abbrev pub blank : Env F.R → TestParams → (base : String) → MonitorPanel F.R
  blank env params base = record {
    monitor = Engine.new params (fresh_series env.clocks.date) env.clocks.date;
    monitor_base = base;
    compact = false;
    show_graph = true;
    directions = record { down = true; up = false };
    running = false;
    blocked = false;
    mode = manual;
    auto_running = false;
    external = none;
    live_down = F.of_ℕ 0;
    live_up = F.of_ℕ 0;
    edge_down = LeadingEdge.new;
    edge_up = LeadingEdge.new;
    last_draw = 0;
    viewport = Viewport.new;
    size = record { width = F.of_ℕ 640; height = F.of_ℕ 224 };
    frame = false;
    treadmill = Jog.new;
    start_button = record { disabled = false; icon = ""; label = ""; title = "" };
    export_disabled = false;
    clear_disabled = false;
    switch_down = record { on = false; disabled = false; state = "Off" };
    switch_up = record { on = false; disabled = false; state = "Off" };
    warning_hidden = true;
    empty_note_hidden = false;
    layout = layout_of false true;
    title = "Manual mode";
    readouts = record {
      down = none;
      up = none;
      both = none;
      peak_down = none;
      peak_up = none;
      moved = none;
    };
    picture = record {
      lead = none;
      drawn = [];
      newest = 0;
      view = record {
        width = F.of_ℕ 640;
        height = F.of_ℕ 224;
        from_ms = F.of_ℕ 0;
        to_ms = F.of_ℕ 0;
      };
      shown_points = [];
      draw_down = false;
      draw_up = false;
      fill_down = false;
      fill_up = false;
      markers = [];
    };
    log = [];
  }

  unfoldable pub new : Env F.R → TestParams → (base : String) → MonitorPanel F.R
  new env params base =
      refresh env (
        measure env
          (paint_directions (set_running env false (lay_out env (blank env params base)))))

-- What the page, the visitor, the browser and the phases of the monitor do.
pub data Action (R : Type 0) : Type 0 where
  mode_is : Mode → Action R
  external_live : (d u : R) → Action R
  auto_runs compacts shows_graph : Bool → Action R
  blocks : Bool → Option Directions → Action R
  clicks_start : (base : String) → Action R
  clicks_clear : Action R
  clicks_export : (peer : Option String) → Action R
  clicks_switch : Key → Action R
  keys_run : (base : String) → Action R
  keys_direction : Key → Action R
  gestures : Drag R → Gesture R → Action R
  frames resizes stopped : Action R
  turns : Event R → Action R
  session_over : Action R

-- The events of the monitor that the panel has no part in.
abbrev pub is_outside : {R : Type 0} → Event R → Bool
is_outside (starts d) = false
is_outside (sets d) = false
is_outside stops = false
is_outside clears = false
is_outside (fires t) = true
is_outside (ticks k id t) = true
is_outside (fails k id e) = true
is_outside (ends k id) = true
is_outside leg_resumes = true
is_outside session_resumes = false

module _ ⦃F : Num⦄ where
  unfoldable pub act : Env F.R → Action F.R → MonitorPanel F.R → MonitorPanel F.R
  act env (mode_is mode) p = set_mode env mode p
  act env (external_live d u) p = set_external_live d u p
  act env (auto_runs running) p = set_auto_running env running p
  act env (compacts compact) p = set_compact env compact p
  act env (shows_graph show) p = set_show_graph env show p
  act env (blocks reason directions) p = set_blocked env reason directions p
  act env (clicks_start base) p = (press_start env base p).1
  act env clicks_clear p = press_clear env p
  act env (clicks_export peer) p = press_export env peer p
  act env (clicks_switch key) p = press_switch env key p
  act env (keys_run base) p = (toggle_run env base p).1
  act env (keys_direction key) p = (toggle_direction env key p).1
  act env (gestures drag g) p = (gesture env g (drag, p)).1
  act env frames p = frame env p
  act env resizes p = resized env p
  act env stopped p = stop env p
  act env (turns e) p = if is_outside e then engine env e p else p
  act env session_over p = session_ends env p

  -- What happens to the panel, with what the page answered each time.
  unfoldable pub act_all : List (Env F.R × Action F.R) → MonitorPanel F.R → MonitorPanel F.R
  act_all [] p = p
  act_all ((env, a) ∷ rest) p = act_all rest (act env a p)
