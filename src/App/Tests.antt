-- ===== src/App/Tests.antt =====
-- web/src/ui/app.ts: the page at concrete events, and the theorems applied to them.
use megapet.Common.{
  ℕ, ◌+◌, ◌≤◌, ◌≡◌, refl, true, false, Option, none, some, List, [], ◌∷◌, length, All,
}
use megapet.Common.Sample.{sample_num}
use megapet.Engine.Monitor.{TestParams}
use megapet.Engine.Runner.{gives}
use megapet.Engine.Runner.Stages.{empty_snapshot}
use megapet.Features.Hero.{VisualKind, lift}
use megapet.Features.Shortcuts.{Press, lower_g, shortcut, bound}
use megapet.Features.MonitorPanel.Actions as Actions
use megapet.App.State.{App, env_of, on_panel, Config, Moment, root}
use megapet.App.Events.{Event, steps, step, presses_hero, keys, arrives, opens, shows, ends, panels}
use megapet.App.Situation.{at_rest, in_session, IsIn, Follows, careful}
use megapet.App.Exclusive.{bit, step-Follows}
use megapet.Engine.Monitor as Engine
use megapet.Features.ModeTabs as ModeTabs
use megapet.Features.ModeTabs.{auto, same_mode}
use megapet.Features.Hero as Hero
use megapet.Features.Hero.{set_manual}
use megapet.Features.MonitorPanel.Controls.{
  set_running, mark_running, paint_directions, paint_treadmill, update_export_button,
  start_button_of, lay_out,
}
use megapet.Features.MonitorPanel.Drawing.{draw, refresh, measure}
use megapet.Features.MonitorPanel.{set_mode, engine, deliver, handle, start_frames, pointed_at}
use megapet.App.State.{settle_panel, hear_all, hear}
use megapet.App.{show_home, place_panel, put_manual, resolve, press_panel}
use megapet.Features.MonitorPanel.{run}
use megapet.App.Sessions.{run-IsIn}
use megapet.App.Places.{resolve-IsIn}
use megapet.App.Overrun.{Overruns, press_panel-Overruns}
use megapet.App.Peers.{Probe, Beats, closest, weigh, nearer, closest-least}
use megapet.Features.TestController.Calls.{Peer}
use megapet.App.Fresh.{new, new-IsIn, new-exclusive}

abbrev moment_at : ℕ → Moment (Option ℕ)
moment_at t = record {
  clocks = record { now = t; date = 0 };
  rect = record { width = some 640; height = some 224 };
}

abbrev config : Config
config = record {
  auto_start = false;
  store_enabled = true;
  show_history = true;
  servers = [];
  pacing = record { opening_ms = none; latency_ms = some 2000; reverse_ms = some 600 };
}

abbrev monitor_params : TestParams
monitor_params = record { upload_streams = 4; upload_chunk_bytes = 8388608 }

abbrev page : App (Option ℕ)
page = new (moment_at 0) config monitor_params "" lift

abbrev press_g : Press
press_g = record {
  key = lower_g;
  ctrl_key = false;
  meta_key = false;
  alt_key = false;
  typing = false;
  repeat = false;
  elsewhere = false;
}

-- A test from its request to its first snapshot, with the graph opened on the way.
abbrev visit : List (Moment (Option ℕ) × Event (Option ℕ))
visit =
    (moment_at 1, arrives root)
    ∷ (moment_at 10, presses_hero)
    ∷ (moment_at 20, opens 0 (gives "run"))
    ∷ (moment_at 30, keys "" press_g)
    ∷ (moment_at 40, shows 0 empty_snapshot)
    ∷ (moment_at 50, panels Actions.frames)
    ∷ (moment_at 60, ends 0 empty_snapshot)
    ∷ []

new-exclusive_example :
    length (steps visit page).opening
      + length (steps visit page).runs
      + bit (steps visit page).panel.running
    ≤ 1
unfolding careful shortcut bound
new-exclusive_example =
    new-exclusive (moment_at 0) config monitor_params "" lift visit refl
      (refl, (refl, (refl, (refl, (refl, (refl, (refl, tt)))))))

step-Follows_example : Follows at_rest (step (moment_at 10) presses_hero page)
unfolding careful
step-Follows_example =
    step-Follows at_rest (moment_at 10) presses_hero page refl
      (new-IsIn (moment_at 0) config monitor_params "" lift refl)

-- A manual session, and the page's home with it: the panel then presents auto mode's controls.
abbrev in_manual : App (Option ℕ)
in_manual = on_panel (run (env_of (moment_at 10) page) "") page

abbrev home_again : App (Option ℕ)
home_again = resolve (moment_at 20) root in_manual

home_again-IsIn : IsIn in_session home_again
home_again-IsIn = resolve-IsIn in_session (moment_at 20) root in_manual (
    run-IsIn (env_of (moment_at 10) page) "" page
      (new-IsIn (moment_at 0) config monitor_params "" lift refl))

home_again-auto : same_mode home_again.panel.mode auto ≡ true
unfolding resolve show_home place_panel put_manual settle_panel hear_all hear new set_manual
    ModeTabs.set_mode Hero.new set_mode set_running mark_running paint_directions paint_treadmill
    update_export_button start_button_of run engine deliver handle start_frames pointed_at
    Actions.new lay_out draw refresh measure Engine.step Engine.start Engine.run_leg
    Engine.open_session Engine.new
home_again-auto = refl

press_panel-Overruns_example : Overruns (press_panel (moment_at 30) "" home_again)
press_panel-Overruns_example =
    press_panel-Overruns (moment_at 30) "" home_again home_again-auto home_again-IsIn

abbrev near : Peer
near = record { id = "a"; name = "Near"; url = "https://a" }

abbrev far : Peer
far = record { id = "b"; name = "Far"; url = "https://b" }

abbrev probes : List Probe
probes = some (far, some 40) ∷ none ∷ some (near, some 9) ∷ some (far, some 0) ∷ []

closest_chosen : closest probes none ≡ some (near, some 9)
unfolding closest weigh nearer
closest_chosen = refl

closest-least_example : All (Beats (closest probes none)) probes
closest-least_example = closest-least probes none tt (refl, (tt, (refl, (refl, tt))))
