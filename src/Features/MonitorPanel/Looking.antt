-- ===== src/Features/MonitorPanel/Looking.antt =====
-- web/src/ui/features/monitor-panel.ts: a gesture on the plot moves the window and nothing else.
use megapet.Common.{if◌then◌else◌, if_cases, Bool, false, not, ◌||◌, Num}
use megapet.Visuals.Viewport.{GraphViewport, same}
use megapet.Features.MonitorPanel.State.{MonitorPanel, Env}
use megapet.Features.MonitorPanel.Drawing.{refresh}
use megapet.Features.MonitorPanel.Gestures.{
  Drag, Pressed, Wheel, Gesture, gesture, zooms_out, zooms_in, focuses, presses, moves, releases,
  wheels, keys, press_zoom_out, press_zoom_in, press_focus, zoom, pan, pointer_move, wheel, keydown,
  moved_by, holds, PlotKey, arrow_left, arrow_right, plus, equals, minus, underscore, lower_f,
  upper_f, nought, other_key,
}

module _ ⦃F : Num⦄ (env : Env F.R) (P : MonitorPanel F.R → Type 0) where
  abbrev Looks : MonitorPanel F.R → Type 0
  Looks p = (v : GraphViewport F.R) → P (refresh env (record p { viewport = v }))

  keydown_cases :
      (k : PlotKey) (shift : Bool) (p : MonitorPanel F.R)
      → P p
      → Looks p
      → P (keydown env k shift p).1
  unfolding keydown moved_by pan
  keydown_cases arrow_left shift p h look = look _
  keydown_cases arrow_right shift p h look = look _
  keydown_cases plus shift p h look = look _
  keydown_cases equals shift p h look = look _
  keydown_cases minus shift p h look = look _
  keydown_cases underscore shift p h look = look _
  keydown_cases lower_f shift p h look = look _
  keydown_cases upper_f shift p h look = look _
  keydown_cases nought shift p h look = look _
  keydown_cases (other_key name) shift p h look = h

  pointer_move_cases :
      (w : F.R) (e : Pressed F.R) (g : Drag F.R) (p : MonitorPanel F.R)
      → P p
      → Looks p
      → P (pointer_move env w e (g, p)).1
  unfolding pointer_move pan
  pointer_move_cases w e g p h look =
      let Moved : Drag F.R × MonitorPanel F.R → Type 0 = λ q. P q.1 in
      if_cases Moved (not (holds g.pointer e.pointer_id)) (g, p) _ (λ _. h)
        λ _.
          if_cases Moved (F.le w (F.of_ℕ 0)) (g, p) _ (λ _. h)
            λ _.
              if_cases Moved (same (F.sub e.client_x g.last_x) (F.of_ℕ 0)) (g, p) _ (λ _. h)
                λ _. look _

  wheel_cases : (e : Wheel F.R) (p : MonitorPanel F.R) → P p → Looks p → P (wheel env e p).1
  unfolding wheel zoom pan
  wheel_cases e p h look =
      let Turned : Bool × MonitorPanel F.R → Type 0 = λ q. P q.1 in
      if_cases Turned (e.ctrl_key || e.meta_key) _ _ (λ _. look _)
        λ _.
          if_cases Turned
            (same (if e.shift_key then e.delta_y else e.delta_x) (F.of_ℕ 0)
              || F.le e.rect_width (F.of_ℕ 0))
            (false, p) _ (λ _. h) λ _. look _

  -- A gesture leaves the panel as it is, or moves the window and redraws.
  pub gesture_cases :
      (e : Gesture F.R) (g : Drag F.R) (p : MonitorPanel F.R)
      → P p
      → Looks p
      → P (gesture env e (g, p)).1
  unfolding gesture press_zoom_out press_zoom_in press_focus zoom
  gesture_cases zooms_out g p h look = look _
  gesture_cases zooms_in g p h look = look _
  gesture_cases focuses g p h look = look _
  gesture_cases (presses e) g p h look = h
  gesture_cases (moves w e) g p h look = pointer_move_cases w e g p h look
  gesture_cases (releases e) g p h look = h
  gesture_cases (wheels e) g p h look = wheel_cases e p h look
  gesture_cases (keys k shift) g p h look = keydown_cases k shift p h look
