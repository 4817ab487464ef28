-- ===== src/Features/MonitorPanel/Drawing.antt =====
-- web/src/ui/features/monitor-panel.ts: what a redraw shows.
--
-- The paths, the ticks and the labels are not part of the picture; the points, the window and the
-- rules they are drawn from are.
use megapet.Common.{
  ℕ, ◌-◌, ltb, ◌==◌, if◌then◌else◌, Bool, true, false, not, ◌&&◌, ◌||◌, Option, none, some, List,
  [], ◌∷◌, ◌++◌, last?, Num, lt,
}
use megapet.Engine.Series.{TimeSeries, SeriesPoint}
use megapet.Engine.Monitor.{Directions, elapsed_ms}
use megapet.Visuals.Graph.{GraphView, SeriesKey, down, up, visible, has_data}
use megapet.Visuals.Viewport.{window, same}
use megapet.Visuals.LeadingEdge.{LeadingEdge, set_target, reset, advanced, current}
use megapet.Features.MonitorPanel.State.{MonitorPanel, Env, Size, Picture}
use megapet.Features.MonitorPanel.Controls.{
  last_t, source, elapsed_for, shown, update_export_button,
}

-- The leading point of a redraw, with the edges that it moves and the time that it counts to.
pub record Leading (R : Type 0) : Type 0 where
  pub edge_down : LeadingEdge R
  pub edge_up : LeadingEdge R
  pub lead : Option (SeriesPoint R)
  pub now_ms : ℕ

module _ ⦃F : Num⦄ where
  abbrev pub listed : Option (SeriesPoint F.R) → List (SeriesPoint F.R)
  listed none = []
  listed (some q) = q ∷ []

  -- A direction that carries nothing is at zero.
  unfoldable pub chase : (mbps : F.R) → LeadingEdge F.R → LeadingEdge F.R
  chase mbps e = if lt (F.of_ℕ 0) mbps then set_target mbps e else reset e

  abbrev pub frame_ms : Env F.R → MonitorPanel F.R → F.R
  frame_ms env p = F.of_ℕ (if p.last_draw == 0 then 16 else env.clocks.now - p.last_draw)

  unfoldable pub leading_of :
      (dt : F.R) → (focused : Bool) → (last_t now_ms : ℕ) → MonitorPanel F.R → Leading F.R
  leading_of dt false last_t now_ms p = record {
    edge_down = reset p.edge_down;
    edge_up = reset p.edge_up;
    lead = none;
    now_ms = last_t;
  }
  leading_of dt true last_t now_ms p =
      let aimed_down = chase p.live_down p.edge_down in
      let aimed_up = chase p.live_up p.edge_up in
      if ltb last_t now_ms
      then record {
        edge_down = advanced dt aimed_down;
        edge_up = advanced dt aimed_up;
        lead = some (record {
          t = now_ms;
          down = current (advanced dt aimed_down);
          up = current (advanced dt aimed_up);
        });
        now_ms = now_ms;
      }
      else record { edge_down = aimed_down; edge_up = aimed_up; lead = none; now_ms = last_t }

  -- A test is running, of either kind.
  abbrev pub is_live : MonitorPanel F.R → Bool
  is_live p = p.running || p.blocked

  unfoldable pub leading : Env F.R → TimeSeries F.R → MonitorPanel F.R → Leading F.R
  leading env series p =
      leading_of (frame_ms env p) (is_live p && p.viewport.following) (last_t series)
        (if is_live p then elapsed_for env series p else elapsed_ms env.clocks.now p.monitor) p

  unfoldable pub markers_of : Directions → Option (SeriesPoint F.R) → List (SeriesKey × F.R)
  markers_of d none = []
  markers_of d (some q) =
      (if d.down then (down, q.down) ∷ [] else []) ++ (if d.up then (up, q.up) ∷ [] else [])

  abbrev pub later : ℕ → Option (SeriesPoint F.R) → ℕ
  later now_ms none = now_ms
  later now_ms (some q) = if ltb now_ms q.t then q.t else now_ms

  unfoldable pub view_of : (newest : ℕ) → MonitorPanel F.R → GraphView F.R
  view_of newest p =
      let span = window (F.of_ℕ newest) p.viewport in
      record {
        width = p.size.width;
        height = p.size.height;
        from_ms = span.from_ms;
        to_ms = span.to_ms;
      }

  unfoldable pub picture_of :
      TimeSeries F.R → Option (SeriesPoint F.R) → (now_ms : ℕ) → MonitorPanel F.R → Picture F.R
  picture_of series lead now_ms p =
      let drawn = series.points ++ listed lead in
      let newest = later now_ms (last? drawn) in
      let view = view_of newest p in
      let points = visible drawn view in
      let draw_down = has_data points down || (shown p).down in
      let draw_up = has_data points up || (shown p).up in
      record {
        lead = lead;
        drawn = drawn;
        newest = newest;
        view = view;
        shown_points = points;
        draw_down = draw_down;
        draw_up = draw_up;
        fill_down = not (draw_down && draw_up) && draw_down;
        fill_up = not (draw_down && draw_up) && draw_up;
        markers = if is_live p then markers_of (shown p) lead else [];
      }

  abbrev pub is_empty : List (SeriesPoint F.R) → Bool
  is_empty [] = true
  is_empty (q ∷ qs) = false

  unfoldable pub draw : Env F.R → TimeSeries F.R → MonitorPanel F.R → MonitorPanel F.R
  draw env series p =
      let l = leading env series p in
      let picture = picture_of series l.lead l.now_ms p in
      update_export_button env (record p {
        last_draw = env.clocks.now;
        edge_down = l.edge_down;
        edge_up = l.edge_up;
        empty_note_hidden = not (is_empty picture.drawn);
        readouts = record p.readouts {
          peak_down = some series.max_down;
          peak_up = some series.max_up;
        };
        picture = picture;
      })

  unfoldable pub refresh : Env F.R → MonitorPanel F.R → MonitorPanel F.R
  refresh env p = draw env (source env p) p

  -- `Math.round(x) || y`
  abbrev pub rounded_or : F.R → ℕ → F.R
  rounded_or x y =
      if F.is_nan (F.round x) || same (F.round x) (F.of_ℕ 0) then F.of_ℕ y else F.round x

  unfoldable pub measured : Env F.R → Size F.R
  measured env = record {
    width = rounded_or env.rect.width 640;
    height = rounded_or env.rect.height 224;
  }

  unfoldable pub measure : Env F.R → MonitorPanel F.R → MonitorPanel F.R
  measure env p = record p { size = measured env }

  -- The callback of the resize observer.
  unfoldable pub resized : Env F.R → MonitorPanel F.R → MonitorPanel F.R
  resized env p =
      let size = measured env in
      if same size.width p.size.width && same size.height p.size.height
      then p
      else refresh env (measure env p)
