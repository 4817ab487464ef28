-- ===== src/App/Own.antt =====
-- web/src/ui/app.ts: what happens to the panel without the page.
use Prim.Native.String.{String}
use megapet.Common.{◌≡◌, refl, if◌then◌else◌, if_cases, ◌&&◌, ◌==◌, Option, List, [], length, Num}
use megapet.Engine.Series.{TimeSeries}
use megapet.Engine.Monitor.{clears}
use megapet.Visuals.Viewport.{same}
use megapet.Features.MonitorPanel.State.{MonitorPanel, Call}
use megapet.Features.MonitorPanel.Controls.{source}
use megapet.Features.MonitorPanel.Drawing.{resized, measured}
use megapet.Features.MonitorPanel.{
  press_clear, clear, press_export, export_csv, press_switch, frame, switch_disabled, export_calls,
}
use megapet.Features.MonitorPanel.Actions as Actions
use megapet.Features.MonitorPanel.Actions.{Action, act, is_outside}
use megapet.Features.MonitorPanel.Looking.{gesture_cases}
use megapet.Features.MonitorPanel.Shown.{act-IsPainted}
use megapet.Features.MonitorPanel.Told.{
  Status, IsAt, at_refresh, at_engine, at_calls, at_measure, told,
}
use megapet.Features.MonitorPanel.Steady.{at_flip}
use megapet.App.State.{App, Moment, env_of, on_panel}
use megapet.App.Events.{is_own}
use megapet.App.Situation.{Situation, IsIn, Follows, still, steady-IsIn}
use megapet.App.Sessions.{session_ends-Follows}

module _ ⦃F : Num⦄ where
  -- An export says nothing of the session.
  export_calls-told :
      (series : TimeSeries F.R) (peer : Option String) → told (export_calls series peer) ≡ []
  unfolding export_calls
  export_calls-told series peer =
      if_cases (λ (cs : List (Call F.R)). told cs ≡ []) (length series.points == 0) _ _ (λ _. refl)
        λ _. refl

  quiet_act :
      (x : Situation) (w : Moment F.R) (e : Action F.R) (a : App F.R)
      → ((s : Status) (p : MonitorPanel F.R) → IsAt s p → IsAt s (act (env_of w a) e p))
      → IsIn x a
      → Follows x (on_panel (act (env_of w a) e) a)
  quiet_act x w e a f h = still x _ (
      steady-IsIn x (act (env_of w a) e) a
        (record { paints = act-IsPainted (env_of w a) e; stays = f }) h)

  -- What the browser, the monitor and the other controls do to the panel ends a session at most.
  pub own-Follows :
      (x : Situation) (w : Moment F.R) (e : Action F.R) (a : App F.R)
      → IsIn x a
      → Follows x (if is_own e then on_panel (λ p. act (env_of w a) e p) a else a)
  unfolding act press_clear clear press_export export_csv press_switch frame resized
  own-Follows x w Actions.clicks_clear a h =
      let env = env_of w a in
      quiet_act x w Actions.clicks_clear a
        (λ s p v.
          if_cases (IsAt s) p.clear_disabled p _ (λ _. v)
            λ _. at_refresh s env _ (at_engine s env clears p v))
        h
  own-Follows x w (Actions.clicks_export peer) a h =
      let env = env_of w a in
      quiet_act x w (Actions.clicks_export peer) a
        (λ s p v.
          if_cases (IsAt s) p.export_disabled p (export_csv env peer p) (λ _. v)
            λ _.
              at_calls s (export_calls (source env p) peer) p
                (export_calls-told (source env p) peer) v)
        h
  own-Follows x w (Actions.clicks_switch k) a h =
      quiet_act x w (Actions.clicks_switch k) a
        (λ s p v.
          if_cases (IsAt s) (switch_disabled k p) p _ (λ _. v) λ _. at_flip s (env_of w a) k p v)
        h
  own-Follows x w (Actions.gestures g t) a h =
      let env = env_of w a in
      quiet_act x w (Actions.gestures g t) a
        (λ s p v. gesture_cases env (IsAt s) t g p v λ view.
          at_refresh s env (record p { viewport = view })
            (record { runs = v.runs; held = v.held; staged = v.staged; said = v.said }))
        h
  own-Follows x w Actions.frames a h =
      quiet_act x w Actions.frames a
        (λ s p v. if_cases (IsAt s) p.frame _ p (λ _. at_refresh s (env_of w a) p v) λ _. v) h
  own-Follows x w Actions.resizes a h =
      let env = env_of w a in
      quiet_act x w Actions.resizes a
        (λ s p v.
          if_cases (IsAt s)
            (same (measured env).width p.size.width && same (measured env).height p.size.height) p _
            (λ _. v) λ _. at_refresh s env _ (at_measure s env p v))
        h
  own-Follows x w (Actions.turns t) a h =
      quiet_act x w (Actions.turns t) a
        (λ s p v. if_cases (IsAt s) (is_outside t) _ p (λ _. at_engine s (env_of w a) t p v) λ _. v)
        h
  own-Follows x w Actions.session_over a h = session_ends-Follows x (env_of w a) a h
  own-Follows x w (Actions.mode_is m) a h = still x a h
  own-Follows x w (Actions.external_live d u) a h = still x a h
  own-Follows x w (Actions.auto_runs on) a h = still x a h
  own-Follows x w (Actions.compacts on) a h = still x a h
  own-Follows x w (Actions.shows_graph on) a h = still x a h
  own-Follows x w (Actions.blocks on d) a h = still x a h
  own-Follows x w (Actions.clicks_start base) a h = still x a h
  own-Follows x w (Actions.keys_run base) a h = still x a h
  own-Follows x w (Actions.keys_direction k) a h = still x a h
  own-Follows x w Actions.stopped a h = still x a h
