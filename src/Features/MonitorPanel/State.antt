-- ===== src/Features/MonitorPanel/State.antt =====
-- web/src/ui/features/monitor-panel.ts: the state of the panel, and what it shows.
--
-- What a button or a switch shows is part of the state, since it is painted at some moments only.
use Prim.Native.String.{String}
use megapet.Common.{ℕ, Bool, Option, List}
use megapet.Engine.Series.{TimeSeries, SeriesPoint}
use megapet.Engine.Monitor as Engine
use megapet.Engine.Monitor.{Monitor, Directions, Clocks}
use megapet.Visuals.Graph.{GraphView, SeriesKey}
use megapet.Visuals.Viewport.{GraphViewport}
use megapet.Visuals.LeadingEdge.{LeadingEdge}
use megapet.Visuals.Jog.{Treadmill}
use megapet.Features.ModeTabs.{Mode}

pub data Call (R : Type 0) : Type 0 where
  running_change : Bool → Call R
  readings : (down up : R) → Call R
  notify announce : String → Call R
  announce_exported : (samples : ℕ) → Call R
  download_csv : List (SeriesPoint R) → (started_at : ℕ) → Directions → (server : String) → Call R
  -- a phase that the monitor runs
  runs : Engine.Call R → Call R

pub record StartButton : Type 0 where
  pub disabled : Bool
  pub icon : String
  pub label : String
  pub title : String

pub record Switch : Type 0 where
  pub on : Bool
  pub disabled : Bool
  pub state : String

pub data Part : Type 0 where
  head blurb controls plot warning readout_grid actions : Part

-- What `layOut` puts into the panel: its parts, whether the mascot stands at its head, and whether
-- the history can be exported and cleared from it.
pub record Layout : Type 0 where
  pub parts : List Part
  pub rider : Bool
  pub history_actions : Bool

pub record Readouts (R : Type 0) : Type 0 where
  pub down : Option R
  pub up : Option R
  pub both : Option R
  pub peak_down : Option R
  pub peak_up : Option R
  pub moved : Option ℕ

-- What the plot shows after a `draw`.
pub record Picture (R : Type 0) : Type 0 where
  pub lead : Option (SeriesPoint R)
  pub drawn : List (SeriesPoint R)
  pub newest : ℕ
  pub view : GraphView R
  pub shown_points : List (SeriesPoint R)
  -- whether each line is drawn, and whether it is filled
  pub draw_down : Bool
  pub draw_up : Bool
  pub fill_down : Bool
  pub fill_up : Bool
  -- the rules at the live readings
  pub markers : List (SeriesKey × R)

pub record Size (R : Type 0) : Type 0 where
  pub width : R
  pub height : R

-- What an operation asks of the page: the clocks, the recorded staged run and the chart's size.
pub record Env (R : Type 0) : Type 0 where
  pub clocks : Clocks
  pub recorded : Option (TimeSeries R)
  pub rect : Size R

pub record MonitorPanel (R : Type 0) : Type 0 where
  pub monitor : Monitor R
  pub monitor_base : String
  pub compact : Bool
  pub show_graph : Bool
  pub directions : Directions
  pub running : Bool
  -- `blocked !== null`
  pub blocked : Bool
  pub mode : Mode
  pub auto_running : Bool
  pub external : Option Directions
  pub live_down : R
  pub live_up : R
  pub edge_down : LeadingEdge R
  pub edge_up : LeadingEdge R
  pub last_draw : ℕ
  pub viewport : GraphViewport R
  pub size : Size R
  -- `frame !== null`
  pub frame : Bool
  pub treadmill : Treadmill R
  pub start_button : StartButton
  pub export_disabled : Bool
  pub clear_disabled : Bool
  pub switch_down : Switch
  pub switch_up : Switch
  pub warning_hidden : Bool
  pub empty_note_hidden : Bool
  pub layout : Layout
  pub title : String
  pub readouts : Readouts R
  pub picture : Picture R
  pub log : List (Call R)
