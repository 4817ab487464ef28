-- ===== src/App/State.antt =====
-- web/src/ui/app.ts: the state of the page, and how its parts hear each other.
--
-- The panel and the controller log what they ask of the page; `settle_panel` and `settle_tests` take
-- the calls up, in order, before anything else happens. A call of `run` that waits for the server is
-- held with its peer, and a test that runs with its peer and its last phase.
use Prim.Native.String.{String}
use megapet.Common.{
  ◌==◌, if◌then◌else◌, Bool, true, false, Option, none, some, List, [], ◌∷◌, ◌++◌, is_some, length,
  Num,
}
use megapet.Engine.Series.{TimeSeries}
use megapet.Engine.Monitor.{Clocks}
use megapet.Engine.Runner.{Stage, idle, Pacing}
use megapet.Features.ModeTabs as ModeTabs
use megapet.Features.ModeTabs.{Mode, ModeTabs, auto, manual}
use megapet.Features.Hero as Hero
use megapet.Features.Hero.{Hero}
use megapet.Features.GraphModal.{GraphModal}
use megapet.Features.MonitorPanel.State.{MonitorPanel, Env, Size, Call, running_change}
use megapet.Features.MonitorPanel.Drawing.{refresh}
use megapet.Features.MonitorPanel.{set_auto_running, set_blocked, set_external_live}
use megapet.Features.TestController as Controller
use megapet.Features.TestController.{TestController}
use megapet.Features.TestController.Calls as TestCall
use megapet.Features.TestController.Calls.{Peer, activity, running, sampled, live, saved}

-- A server of the configuration.
pub record Server : Type 0 where
  pub peer : Peer
  pub is_default : Bool

pub record Config : Type 0 where
  pub auto_start : Bool
  pub store_enabled : Bool
  pub show_history : Bool
  pub servers : List Server
  pub pacing : Pacing

pub data PagePath : Type 0 where
  root manual_page : PagePath
  saved_result other_path : String → PagePath

pub data PageCall (R : Type 0) : Type 0 where
  of_test : TestCall.Call R → PageCall R
  of_panel : Call R → PageCall R
  shares : String → PageCall R
  refreshes_history clears_history refreshes_connection : PageCall R
  loads_result : String → PageCall R
  -- whether to stop what runs, and which mode is asked for
  asks : (is_auto : Bool) → Mode → PageCall R

-- A test that runs.
pub record Running : Type 0 where
  pub peer : Option Peer
  pub last_phase : Stage

pub record App (R : Type 0) : Type 0 where
  pub config : Config
  pub hero : Hero
  pub modes : ModeTabs
  pub panel : MonitorPanel R
  pub tests : TestController R
  pub graph : GraphModal
  -- the top bar shows the graph as open, and the tabs of the modes
  pub graph_active : Bool
  pub tabs_shown : Bool
  pub mode : Mode
  pub peer : Option Peer
  pub peers : List Peer
  pub path : PagePath
  pub result_shown : Bool
  pub opening : List (Option Peer)
  pub runs : List Running
  pub log : List (PageCall R)

-- The clocks and the chart's size at some moment.
pub record Moment (R : Type 0) : Type 0 where
  pub clocks : Clocks
  pub rect : Size R

-- `lastRun`
abbrev pub last_run : {R : Type 0} → TestController R → Option (TimeSeries R)
last_run m = let s = m.recording.series in if length s.points == 0 then none else some s

abbrev pub is_running : {R : Type 0} → TestController R → Bool
is_running m = is_some m.test

abbrev pub manual_if : Bool → Option Mode
manual_if true = some manual
manual_if false = none

module _ ⦃F : Num⦄ where
  abbrev pub page : List (PageCall F.R) → App F.R → App F.R
  page cs a = record a { log = a.log ++ cs }

  abbrev pub env_of : Moment F.R → App F.R → Env F.R
  env_of w a = record { clocks = w.clocks; recorded = last_run a.tests; rect = w.rect }

  -- A call of the panel.
  unfoldable pub hear : Call F.R → App F.R → App F.R
  hear (running_change on) a = record a {
    hero = Hero.set_blocked on a.hero;
    modes = ModeTabs.set_running (manual_if on) a.modes;
  }
  hear other_call a = page (of_panel other_call ∷ []) a

  unfoldable pub hear_all : List (Call F.R) → App F.R → App F.R
  hear_all [] a = a
  hear_all (c ∷ cs) a = hear_all cs (hear c a)

  unfoldable pub settle_panel : App F.R → App F.R
  settle_panel a = hear_all a.panel.log (record a { panel = record a.panel { log = [] } })

  -- Something is asked of the panel, which may call the page.
  abbrev pub on_panel : (MonitorPanel F.R → MonitorPanel F.R) → App F.R → App F.R
  on_panel f a = settle_panel (record a { panel = f a.panel })

  abbrev pub auto_if : {A : Type 0} → Option A → Option Mode
  auto_if none = none
  auto_if (some d) = some auto

  -- A call of the controller.
  unfoldable pub test_call : Moment F.R → TestCall.Call F.R → App F.R → App F.R
  test_call w (activity d) a =
      on_panel
        (λ p.
          let env = env_of w a in
          let blocked = set_blocked env (is_some d) d (set_auto_running env (is_some d) p) in
          if is_some d then blocked else refresh env blocked)
        (record a { modes = ModeTabs.set_running (auto_if d) a.modes })
  test_call w (running on) a = record a { hero = Hero.set_running on a.hero }
  test_call w sampled a = on_panel (λ p. refresh (env_of w a) p) a
  test_call w (live d u) a = on_panel (λ p. set_external_live d u p) a
  test_call w (saved id) a =
      page (shares id ∷ (if a.config.show_history then refreshes_history ∷ [] else [])) a
  test_call w other_call a = page (of_test other_call ∷ []) a

  unfoldable pub test_calls : Moment F.R → List (TestCall.Call F.R) → App F.R → App F.R
  test_calls w [] a = a
  test_calls w (c ∷ cs) a = test_calls w cs (test_call w c a)

  unfoldable pub settle_tests : Moment F.R → App F.R → App F.R
  settle_tests w a = test_calls w a.tests.log (record a { tests = record a.tests { log = [] } })

  -- `tests.run(peer)`, up to its first wait.
  unfoldable pub run_tests : Moment F.R → App F.R → App F.R
  run_tests w a =
      let begun = Controller.begin w.clocks a.config.pacing a.config.store_enabled a.peer a.tests in
      if is_running a.tests
      then a
      else if a.config.store_enabled
      then settle_tests w (record a { tests = begun; opening = a.opening ++ a.peer ∷ [] })
      else settle_tests w (record a {
        tests = begun;
        runs = a.runs ++ record { peer = a.peer; last_phase = idle } ∷ [];
      })

  unfoldable pub abort_tests : Moment F.R → App F.R → App F.R
  abort_tests w a = settle_tests w (record a { tests = Controller.abort a.tests })
