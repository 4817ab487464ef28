-- ===== src/App/Events.antt =====
-- web/src/ui/app.ts: what the visitor, the server, the tests and the browser do to the page.
use Prim.Native.String.{String}
use megapet.Common.{ℕ, if◌then◌else◌, Bool, true, false, Option, List, [], ◌∷◌, Num}
use megapet.Engine.Runner.{Snapshot, Settled}
use megapet.Features.ModeTabs.{Mode}
use megapet.Features.Hero as Hero
use megapet.Features.Shortcuts.{Press}
use megapet.Features.MonitorPanel.Actions as Actions
use megapet.Features.MonitorPanel.Actions.{Action, act}
use megapet.Features.TestController.Calls.{Peer, RunOutcome}
use megapet.App.State.{App, Moment, PagePath, env_of, on_panel}
use megapet.App.{
  press_hero, toggle_graph, press_panel, press_key, choose_mode, answered, navigate, resolve,
  server_opens, test_shows, test_ends, server_closes, change_peer,
}

pub data Event (R : Type 0) : Type 0 where
  presses_hero toggles_graph : Event R
  presses_panel : (base : String) → Event R
  keys : (base : String) → Press → Event R
  -- what else happens to the panel: the browser, its monitor and its other controls
  panels : Action R → Event R
  selects : Mode → Event R
  answers : (is_auto : Bool) → Mode → Bool → Event R
  goes arrives : PagePath → Event R
  opens : ℕ → Settled String → Event R
  shows ends : ℕ → Snapshot R → Event R
  closes : Settled RunOutcome → Event R
  picks : Option Peer → Event R
  visuals : Hero.VisualKind → Event R

-- What happens to the panel without the page.
abbrev pub is_own : {R : Type 0} → Action R → Bool
is_own Actions.clicks_clear = true
is_own (Actions.clicks_export peer) = true
is_own (Actions.clicks_switch k) = true
is_own (Actions.gestures drag g) = true
is_own Actions.frames = true
is_own Actions.resizes = true
is_own (Actions.turns e) = true
is_own Actions.session_over = true
is_own other_action = false

module _ ⦃F : Num⦄ where
  unfoldable pub step : Moment F.R → Event F.R → App F.R → App F.R
  step w presses_hero a = press_hero w a
  step w toggles_graph a = toggle_graph w a
  step w (presses_panel base) a = press_panel w base a
  step w (keys base e) a = press_key w base e a
  step w (panels e) a = if is_own e then on_panel (λ p. act (env_of w a) e p) a else a
  step w (selects mode) a = choose_mode w mode a
  step w (answers is_auto mode stop) a = answered w is_auto mode stop a
  step w (goes path) a = navigate w path a
  step w (arrives path) a = resolve w path (record a { path = path })
  step w (opens n answer) a = server_opens w n answer a
  step w (shows n s) a = test_shows w n s a
  step w (ends n s) a = test_ends w n s a
  step w (closes outcome) a = server_closes w outcome a
  step w (picks peer) a = change_peer peer a
  step w (visuals kind) a = record a { hero = Hero.set_visual kind a.hero }

  -- What happens to the page, each with its moment.
  unfoldable pub steps : List (Moment F.R × Event F.R) → App F.R → App F.R
  steps [] a = a
  steps ((w, e) ∷ rest) a = steps rest (step w e a)
