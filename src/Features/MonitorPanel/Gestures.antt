-- ===== src/Features/MonitorPanel/Gestures.antt =====
-- web/src/ui/features/monitor-panel.ts: the zoom, the drag, the wheel and the keys of the plot.
--
-- A drag is its pointer and the last position of it; the mark `dragging` of the chart stands as long
-- as there is a pointer, which the chart captures.
use Prim.Native.String.{String}
use megapet.Common.{
  ℕ, ◌==◌, if◌then◌else◌, Bool, true, false, not, ◌||◌, Option, none, some, Num, lt,
}
use megapet.Visuals.Viewport as Viewport
use megapet.Visuals.Viewport.{GraphViewport, Window, same}
use megapet.Features.MonitorPanel.State.{MonitorPanel, Env}
use megapet.Features.MonitorPanel.Controls.{newest_ms}
use megapet.Features.MonitorPanel.Drawing.{refresh}

pub record Drag (R : Type 0) : Type 0 where
  pub pointer : Option ℕ
  pub last_x : R

pub record Pressed (R : Type 0) : Type 0 where
  pub pointer_id : ℕ
  pub client_x : R

-- What the wheel reports, with the chart's place on the page.
pub record Wheel (R : Type 0) : Type 0 where
  pub ctrl_key : Bool
  pub meta_key : Bool
  pub shift_key : Bool
  pub delta_x : R
  pub delta_y : R
  pub client_x : R
  pub rect_left : R
  pub rect_width : R

pub data PlotKey : Type 0 where
  arrow_left arrow_right plus equals minus underscore lower_f upper_f nought : PlotKey
  other_key : String → PlotKey

abbrev pub holds : Option ℕ → ℕ → Bool
holds none id = false
holds (some pointer) id = pointer == id

module _ ⦃F : Num⦄ where
  abbrev pub viewed : (GraphViewport F.R → GraphViewport F.R) → MonitorPanel F.R → MonitorPanel F.R
  viewed f p = record p { viewport = f p.viewport }

  unfoldable pub zoom : Env F.R → (factor at : F.R) → MonitorPanel F.R → MonitorPanel F.R
  zoom env factor at p = refresh env (viewed (Viewport.zoom factor (F.of_ℕ (newest_ms env p)) at) p)

  unfoldable pub pan : Env F.R → (delta_ms : F.R) → MonitorPanel F.R → MonitorPanel F.R
  pan env delta_ms p = viewed (Viewport.pan delta_ms (F.of_ℕ (newest_ms env p))) p

  abbrev pub half : F.R
  half = F.div (F.of_ℕ 1) (F.of_ℕ 2)

  -- 1.6 and 1.15
  abbrev pub zoom_step : F.R
  zoom_step = F.div (F.of_ℕ 16) (F.of_ℕ 10)

  abbrev pub wheel_step : F.R
  wheel_step = F.div (F.of_ℕ 115) (F.of_ℕ 100)

  abbrev pub inverse : F.R → F.R
  inverse x = F.div (F.of_ℕ 1) x

  unfoldable pub press_zoom_out : Env F.R → MonitorPanel F.R → MonitorPanel F.R
  press_zoom_out env p = zoom env zoom_step half p

  unfoldable pub press_zoom_in : Env F.R → MonitorPanel F.R → MonitorPanel F.R
  press_zoom_in env p = zoom env (inverse zoom_step) half p

  abbrev pub toggle_focus : MonitorPanel F.R → MonitorPanel F.R
  toggle_focus p = viewed (Viewport.set_focus (not p.viewport.following)) p

  unfoldable pub press_focus : Env F.R → MonitorPanel F.R → MonitorPanel F.R
  press_focus env p = refresh env (toggle_focus p)

  abbrev pub shown_span : Env F.R → MonitorPanel F.R → F.R
  shown_span env p =
      let span = Viewport.window (F.of_ℕ (newest_ms env p)) p.viewport in
      F.sub span.to_ms span.from_ms

  unfoldable pub pointer_down : Pressed F.R → Drag F.R
  pointer_down e = record { pointer = some e.pointer_id; last_x = e.client_x }

  unfoldable pub pointer_move :
      Env F.R
      → (rect_width : F.R) → Pressed F.R
      → Drag F.R × MonitorPanel F.R
      → Drag F.R × MonitorPanel F.R
  pointer_move env rect_width e (g, p) =
      let per_pixel = F.div (shown_span env p) rect_width in
      let dx = F.sub e.client_x g.last_x in
      if not (holds g.pointer e.pointer_id)
      then (g, p)
      else if F.le rect_width (F.of_ℕ 0)
      then (g, p)
      else if same dx (F.of_ℕ 0)
      then (g, p)
      else (
        record g { last_x = e.client_x },
        refresh env (pan env (F.mul (F.sub (F.of_ℕ 0) dx) per_pixel) p),
      )

  unfoldable pub release : Pressed F.R → Drag F.R → Drag F.R
  release e g = if holds g.pointer e.pointer_id then record g { pointer = none } else g

  -- The Boolean says whether the browser's own scrolling is kept from happening.
  unfoldable pub wheel : Env F.R → Wheel F.R → MonitorPanel F.R → Bool × MonitorPanel F.R
  wheel env e p =
      let at =
        if lt (F.of_ℕ 0) e.rect_width
        then F.div (F.sub e.client_x e.rect_left) e.rect_width
        else half in
      let factor = if lt (F.of_ℕ 0) e.delta_y then wheel_step else inverse wheel_step in
      let sideways = if e.shift_key then e.delta_y else e.delta_x in
      let per_pixel = F.div (shown_span env p) e.rect_width in
      if e.ctrl_key || e.meta_key
      then (true, zoom env factor at p)
      else if same sideways (F.of_ℕ 0) || F.le e.rect_width (F.of_ℕ 0)
      then (false, p)
      else (true, refresh env (pan env (F.mul sideways per_pixel) p))

  abbrev pub stride : Env F.R → (shift_key : Bool) → MonitorPanel F.R → F.R
  stride env shift_key p =
      F.mul (shown_span env p) (if shift_key then half else F.div (F.of_ℕ 1) (F.of_ℕ 10))

  abbrev pub zoomed : Env F.R → (factor : F.R) → MonitorPanel F.R → MonitorPanel F.R
  zoomed env factor p = viewed (Viewport.zoom factor (F.of_ℕ (newest_ms env p)) half) p

  -- What a key does to the viewport, if it is one of the plot's.
  unfoldable pub moved_by :
      Env F.R → PlotKey → (shift_key : Bool) → MonitorPanel F.R → Option (MonitorPanel F.R)
  moved_by env arrow_left shift_key p = some (pan env (F.sub (F.of_ℕ 0) (stride env shift_key p)) p)
  moved_by env arrow_right shift_key p = some (pan env (stride env shift_key p) p)
  moved_by env plus shift_key p = some (zoomed env (inverse zoom_step) p)
  moved_by env equals shift_key p = some (zoomed env (inverse zoom_step) p)
  moved_by env minus shift_key p = some (zoomed env zoom_step p)
  moved_by env underscore shift_key p = some (zoomed env zoom_step p)
  moved_by env lower_f shift_key p = some (toggle_focus p)
  moved_by env upper_f shift_key p = some (toggle_focus p)
  moved_by env nought shift_key p = some (viewed Viewport.reset p)
  moved_by env (other_key name) shift_key p = none

  unfoldable pub keydown :
      Env F.R → PlotKey → (shift_key : Bool) → MonitorPanel F.R → Bool × MonitorPanel F.R
  keydown env key shift_key p = elim (moved_by env key shift_key p) [
    | none ↦ (false, p)
    | some q ↦ (true, refresh env q)
  ]

-- A gesture on the plot or a button of it.
pub data Gesture (R : Type 0) : Type 0 where
  zooms_out zooms_in focuses : Gesture R
  presses : Pressed R → Gesture R
  moves : (rect_width : R) → Pressed R → Gesture R
  releases : Pressed R → Gesture R
  wheels : Wheel R → Gesture R
  keys : PlotKey → (shift_key : Bool) → Gesture R

module _ ⦃F : Num⦄ where
  unfoldable pub gesture :
      Env F.R → Gesture F.R → Drag F.R × MonitorPanel F.R → Drag F.R × MonitorPanel F.R
  gesture env zooms_out (g, p) = (g, press_zoom_out env p)
  gesture env zooms_in (g, p) = (g, press_zoom_in env p)
  gesture env focuses (g, p) = (g, press_focus env p)
  gesture env (presses e) (g, p) = (pointer_down e, p)
  gesture env (moves rect_width e) (g, p) = pointer_move env rect_width e (g, p)
  gesture env (releases e) (g, p) = (release e g, p)
  gesture env (wheels e) (g, p) = (g, (wheel env e p).1)
  gesture env (keys key shift_key) (g, p) = (g, (keydown env key shift_key p).1)
