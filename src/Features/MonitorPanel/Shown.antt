-- ===== src/Features/MonitorPanel/Shown.antt =====
-- web/src/ui/features/monitor-panel.ts: whatever happens, the controls show what the panel holds.
use Prim.Native.String.{String}
use megapet.Common.{refl, if_cases, false, ◌||◌, Num}
use megapet.Engine.Monitor.{TestParams, stops, clears}
use megapet.Features.ModeTabs.{same_mode, auto}
use megapet.Features.MonitorPanel.State.{MonitorPanel, Env}
use megapet.Features.MonitorPanel.Controls.{source, paint_directions, lay_out, paint_treadmill}
use megapet.Features.MonitorPanel.Drawing.{resized}
use megapet.Features.MonitorPanel.Looking.{gesture_cases}
use megapet.Features.MonitorPanel.Painted.{IsPainted, set_running-IsPainted}
use megapet.Features.MonitorPanel.{
  set_compact, set_show_graph, frame, clear, press_clear, press_switch, press_export, export_csv,
  toggle_run, toggle_direction, stop, switch_disabled, export_calls,
}
use megapet.Features.MonitorPanel.Actions.{
  Action, act, new, is_outside, mode_is, external_live, auto_runs, compacts, shows_graph, blocks,
  clicks_start, clicks_clear, clicks_export, clicks_switch, keys_run, keys_direction, gestures,
  frames, resizes, stopped, turns, session_over,
}
use megapet.Features.MonitorPanel.Repainted.{
  refreshed, looked, turned, sized, said, relaid-IsPainted, set_mode-IsPainted, live-IsPainted,
  set_auto_running-IsPainted, set_blocked-IsPainted, toggle-IsPainted, second, IsSecond,
  press_start-IsPainted, flip-IsPainted, session_ends-IsPainted,
}

module _ ⦃F : Num⦄ where
  pub act-IsPainted :
      (env : Env F.R) (a : Action F.R) (p : MonitorPanel F.R)
      → IsPainted p
      → IsPainted (act env a p)
  unfolding act set_compact set_show_graph press_clear clear press_switch press_export export_csv
      toggle_run toggle_direction frame resized stop
  act-IsPainted env (mode_is m) p h = set_mode-IsPainted env m p h
  act-IsPainted env (external_live d u) p h = live-IsPainted d u p h
  act-IsPainted env (auto_runs on) p h = set_auto_running-IsPainted env on p h
  act-IsPainted env (compacts c) p h =
      if_cases IsPainted _ _ p (λ _. relaid-IsPainted env c p.show_graph p h) λ _. h
  act-IsPainted env (shows_graph s) p h =
      if_cases IsPainted _ _ p (λ _. relaid-IsPainted env p.compact s p h) λ _. h
  act-IsPainted env (blocks reason d) p h = set_blocked-IsPainted env reason d p h
  act-IsPainted env (clicks_start base) p h = second (press_start-IsPainted env base p h)
  act-IsPainted env clicks_clear p h =
      if_cases IsPainted p.clear_disabled p _ (λ _. h) λ _. refreshed env _ (turned env clears p h)
  act-IsPainted env (clicks_export peer) p h =
      if_cases IsPainted p.export_disabled p (export_csv env peer p) (λ _. h)
        λ _. said (export_calls (source env p) peer) p h
  act-IsPainted env (clicks_switch k) p h =
      if_cases IsPainted (switch_disabled k p) p _ (λ _. h) λ _. flip-IsPainted env k p h
  act-IsPainted env (keys_run base) p h = second (
      if_cases IsSecond p.blocked _ _ (λ _. record { second = h })
        λ _. record { second = toggle-IsPainted env base p h })
  act-IsPainted env (keys_direction k) p h = second (
      if_cases IsSecond (p.blocked || same_mode p.mode auto) _ _ (λ _. record { second = h })
        λ _. record { second = flip-IsPainted env k p h })
  act-IsPainted env (gestures drag g) p h =
      gesture_cases env IsPainted g drag p h λ v. looked env v p h
  act-IsPainted env frames p h = if_cases IsPainted p.frame _ p (λ _. refreshed env _ h) λ _. h
  act-IsPainted env resizes p h =
      if_cases IsPainted _ p _ (λ _. h) λ _. refreshed env _ (sized env p h)
  act-IsPainted env stopped p h = turned env stops p h
  act-IsPainted env (turns e) p h =
      if_cases IsPainted (is_outside e) _ p (λ _. turned env e p h) λ _. h
  act-IsPainted env session_over p h = session_ends-IsPainted env p h

  painted_twice : (p : MonitorPanel F.R) → IsPainted p → IsPainted (paint_directions p)
  unfolding paint_directions
  painted_twice p h = record {
    shown = record {
      start = h.shown.start;
      down = refl;
      up = refl;
      warns = refl;
      jogs_for = h.shown.jogs_for;
      laid = record { laid = h.shown.laid.laid; borrowed = h.shown.laid.borrowed };
    };
  }

  pub new-IsPainted :
      (env : Env F.R) (params : TestParams) (base : String) → IsPainted (new env params base)
  unfolding new lay_out paint_treadmill
  new-IsPainted env params base = refreshed env _ (
      sized env _ (
        painted_twice _
          (set_running-IsPainted env false _ (record { laid = refl; borrowed = λ _. refl }))))
