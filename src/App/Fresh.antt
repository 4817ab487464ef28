-- ===== src/App/Fresh.antt =====
-- web/src/ui/app.ts: a new page.
use Prim.Native.String.{String}
use megapet.Common.{
  if◌then◌else◌, ◌+◌, ◌≤◌, ◌≡◌, refl, false, Option, none, some, List, [], ◌∷◌, map, length, Num,
}
use megapet.Engine.Monitor.{TestParams}
use megapet.Features.ModeTabs as ModeTabs
use megapet.Features.ModeTabs.{auto}
use megapet.Features.Hero as Hero
use megapet.Features.Hero.{start_button_of}
use megapet.Features.GraphModal as GraphModal
use megapet.Features.MonitorPanel.State.{Env}
use megapet.Features.MonitorPanel.Controls.{lay_out, paint_treadmill}
use megapet.Features.MonitorPanel.Actions as Actions
use megapet.Features.MonitorPanel.Actions.{blank}
use megapet.Features.MonitorPanel.Shown.{new-IsPainted}
use megapet.Features.MonitorPanel.Told.{IsAt, at_refresh, at_measure, set_running-IsAt}
use megapet.Features.MonitorPanel.Steady.{at_directions}
use megapet.Features.TestController.{TestController}
use megapet.Features.TestController.Recording.{fresh_recording}
use megapet.Features.TestController.Calls.{Peer}
use megapet.App.State.{App, Config, Moment, Server, root}
use megapet.App.Events.{Event, steps}
use megapet.App.Lit.{status_of}
use megapet.App.Situation.{at_rest, lights, IsIn}
use megapet.App.Exclusive.{Careful, bit, Reaches, steps-Reaches, one_at_a_time}

-- The first server that is marked as the default.
unfoldable pub default_of : List Server → Option Peer
default_of [] = none
default_of (s ∷ rest) = let others = default_of rest in if s.is_default then some s.peer else others

module _ ⦃F : Num⦄ where
  abbrev pub fresh_tests : TestController F.R
  fresh_tests = record {
    test = none;
    next_test = 0;
    run_id = none;
    recording = fresh_recording;
    log = [];
  }

  -- The panel that the constructor makes, with what it asks of the page.
  abbrev pub env_at : Moment F.R → Env F.R
  env_at w = record { clocks = w.clocks; recorded = none; rect = w.rect }

  unfoldable pub new :
      Moment F.R → Config → TestParams → (base : String) → Hero.VisualKind → App F.R
  new w config params base kind = record {
    config = config;
    hero = Hero.new kind;
    modes = ModeTabs.new;
    panel = Actions.new (env_at w) params base;
    tests = fresh_tests;
    graph = GraphModal.new;
    graph_active = false;
    tabs_shown = false;
    mode = auto;
    peer = default_of config.servers;
    peers = map (λ (s : Server). s.peer) config.servers;
    path = root;
    result_shown = false;
    opening = [];
    runs = [];
    log = [];
  }

  new_panel-IsAt :
      (env : Env F.R) (params : TestParams) (base : String)
      → IsAt (status_of [] (lights at_rest)) (Actions.new env params base)
  unfolding Actions.new lay_out paint_treadmill
  new_panel-IsAt env params base =
      let s = status_of [] (lights at_rest) in
      at_refresh s env _ (
        at_measure s env _ (
          at_directions s _ (
            set_running-IsAt s env false (lay_out env (blank env params base))
              (record { runs = refl; held = refl; staged = refl; said = refl }))))

  pub new-IsIn :
      (w : Moment F.R) (config : Config) (params : TestParams) (base : String)
      (kind : Hero.VisualKind)
      → config.auto_start ≡ false
      → IsIn at_rest (new w config params base kind)
  unfolding new Hero.new
  new-IsIn w config params base kind e = record {
    lit = record {
      lit = record {
        painted = new-IsPainted (env_at w) params base;
        at = new_panel-IsAt (env_at w) params base;
        hero_runs = refl;
        hero_stands = refl;
        hero_painted = refl;
        tabbed = refl;
      };
    };
    based = record { silent = refl; openings = refl; running = refl; held = refl; unforced = e };
  }

  -- Whatever careful events happen to a new page whose `auto_start` is off, it is in one of the four
  -- situations and shows it: the panel's session and hold, the two start buttons, the mode's tab and
  -- the controller's flag agree on who holds the link.
  new-Reaches :
      (w : Moment F.R) (config : Config) (params : TestParams) (base : String)
      (kind : Hero.VisualKind) (events : List (Moment F.R × Event F.R))
      → config.auto_start ≡ false
      → Careful events (new w config params base kind)
      → Reaches (steps events (new w config params base kind))
  new-Reaches w config params base kind events e c =
      steps-Reaches at_rest events _ c (new-IsIn w config params base kind e)

  -- One test at a time: whatever careful events happen to a new page whose `auto_start` is off, the
  -- runs that wait for the server, the tests that run and the manual session are at most one
  -- altogether.
  pub new-exclusive :
      (w : Moment F.R) (config : Config) (params : TestParams) (base : String)
      (kind : Hero.VisualKind) (events : List (Moment F.R × Event F.R))
      → config.auto_start ≡ false
      → Careful events (new w config params base kind)
      → length (steps events (new w config params base kind)).opening
          + length (steps events (new w config params base kind)).runs
          + bit (steps events (new w config params base kind)).panel.running
        ≤ 1
  new-exclusive w config params base kind events e c =
      let r = new-Reaches w config params base kind events e c in
      one_at_a_time r.situation _ r.is_in
