-- ===== src/App.antt =====
-- web/src/ui/app.ts: the page.
--
-- What the visitor, the server, the tests and the browser do are events in any order. The dialog
-- that `chooseMode` waits for answers with the question it was asked, at any time.
pub mod State
pub mod Events
pub mod Lit
pub mod Marked
pub mod Situation
pub mod Runs
pub mod Sessions
pub mod Places
pub mod Own
pub mod Exclusive
pub mod Fresh
pub mod Overrun
pub mod Peers
mod Tests
use Prim.Native.String.{String}
use Prim.Native.String as Text
use Prim.Native.Nat.{Ordering}
use megapet.Common.{
  ℕ, ◌+◌, ltb, if◌then◌else◌, Bool, true, false, not, ◌&&◌, ◌||◌, Option, none, some, List, [], ◌∷◌,
  ◌++◌, is_some, length, Num, lt, zero, suc,
}
use megapet.Engine.Runner.{Stage, idle, Snapshot, Settled}
use megapet.Engine.Monitor as Engine
use megapet.Features.ModeTabs as ModeTabs
use megapet.Features.ModeTabs.{Mode, auto, manual, same_mode}
use megapet.Features.Hero as Hero
use megapet.Features.GraphModal as GraphModal
use megapet.Features.Shortcuts.{
  Press, Shortcut, shortcut, graph, toggles_run, toggles_download, toggles_upload,
}
use megapet.Features.MonitorPanel.State.{MonitorPanel}
use megapet.Features.MonitorPanel.Drawing.{refresh}
use megapet.Features.MonitorPanel as Panel
use megapet.Features.MonitorPanel.Actions as Actions
use megapet.Features.MonitorPanel.Actions.{Action, act}
use megapet.Features.TestController as Controller
use megapet.Features.TestController.Calls.{Peer, RunOutcome}
use megapet.App.State.{
  App, Moment, PagePath, root, manual_page, saved_result, other_path, Running, asks,
  refreshes_history, clears_history, refreshes_connection, loads_result, page, env_of, is_running,
  on_panel, settle_panel, settle_tests, run_tests, abort_tests,
}

-- The element at a place, and the others.
unfoldable pub pick : {A : Type 0} → ℕ → List A → Option (A × List A)
pick n [] = none
pick zero (x ∷ xs) = some (x, xs)
pick (suc n) (x ∷ xs) = elim (pick n xs) [ none ↦ none | some (y, ys) ↦ some (y, x ∷ ys) ]

abbrev pub same_text : String → String → Bool
same_text a b = elim (Text.compare a b) [ Ordering.eq ↦ true | _ ↦ false ]

abbrev pub same_path : PagePath → PagePath → Bool
same_path root root = true
same_path manual_page manual_page = true
same_path (saved_result a) (saved_result b) = same_text a b
same_path (other_path a) (other_path b) = same_text a b
same_path a b = false

module _ ⦃F : Num⦄ where
  -- Manual mode's controls are put where the visual stands, or taken from there.
  unfoldable pub put_manual : Bool → App F.R → App F.R
  put_manual on a = record a { hero = Hero.set_manual on a.hero }

  -- The two places of the panel that `showHome` chooses between, unless the graph is open.
  unfoldable pub place_panel : Moment F.R → Mode → App F.R → App F.R
  place_panel w manual a =
      if a.graph.is_open
      then a
      else put_manual true (
          on_panel
            (λ p.
              let env = env_of w a in
              Panel.set_show_graph env false
                (Panel.set_compact env true (Panel.set_title "Manual mode" p)))
            a)
  place_panel w auto a = if a.graph.is_open then a else put_manual false a

  unfoldable pub show_home : Moment F.R → Mode → App F.R → App F.R
  show_home w mode a =
      let shown = place_panel w mode (
        on_panel (λ p. Panel.set_mode (env_of w a) mode p)
          (record a {
            mode = mode;
            result_shown = false;
            modes = ModeTabs.set_mode mode a.modes;
            tabs_shown = true;
          })) in
      let listed =
        page ((if shown.config.show_history then refreshes_history else clears_history) ∷ [])
          shown in
      if listed.config.auto_start && not (is_running listed.tests)
      then run_tests w listed
      else listed

  unfoldable pub show_result : String → App F.R → App F.R
  show_result id a =
      page (loads_result id ∷ [])
        (record a { tabs_shown = false; graph_active = false; result_shown = true })

  -- The routes of the page.
  unfoldable pub resolve : Moment F.R → PagePath → App F.R → App F.R
  resolve w root a = show_home w auto a
  resolve w manual_page a = show_home w manual a
  resolve w (saved_result id) a = show_result id a
  resolve w (other_path name) a = show_home w auto a

  unfoldable pub navigate : Moment F.R → PagePath → App F.R → App F.R
  navigate w path a = if same_path a.path path then a else resolve w path (record a { path = path })

  unfoldable pub open_graph : Moment F.R → App F.R → App F.R
  open_graph w a =
      let env = env_of w a in
      let opened = put_manual false (
        on_panel
          (λ p. refresh env (
            Panel.set_compact env false
              (Panel.set_show_graph env true (Panel.set_title "Graph" p))))
          a) in
      record opened { graph = GraphModal.show opened.graph; graph_active = true }

  unfoldable pub close_graph : Moment F.R → App F.R → App F.R
  close_graph w a =
      let closed = record a { graph = (GraphModal.hide a.graph).1; graph_active = false } in
      if (GraphModal.hide a.graph).0 && same_mode a.mode manual
      then put_manual true (
          on_panel (λ p. Panel.set_show_graph (env_of w a) false (Panel.set_title "Manual mode" p))
            closed)
      else put_manual false closed

  unfoldable pub toggle_graph : Moment F.R → App F.R → App F.R
  toggle_graph w a = if a.graph.is_open then close_graph w a else open_graph w a

  abbrev pub path_for : Mode → PagePath
  path_for manual = manual_page
  path_for auto = root

  unfoldable pub apply_mode : Moment F.R → Mode → App F.R → App F.R
  apply_mode w mode a =
      let chosen = record a { mode = mode; modes = ModeTabs.set_mode mode a.modes } in
      let env = env_of w a in
      if a.graph.is_open
      then on_panel (λ p. refresh env (Panel.set_mode env mode p)) chosen
      else chosen

  unfoldable pub commit_mode : Moment F.R → Mode → App F.R → App F.R
  commit_mode w mode a = navigate w (path_for mode) (apply_mode w mode a)

  unfoldable pub running_mode : App F.R → Option Mode
  running_mode a =
      if is_running a.tests then some auto else if a.panel.running then some manual else none

  -- `chooseMode` up to the question it may ask.
  unfoldable pub choose_mode : Moment F.R → Mode → App F.R → App F.R
  choose_mode w mode a = elim (running_mode a) [
    | none ↦ commit_mode w mode a
    | some other ↦
        if same_mode other mode
        then commit_mode w mode a
        else page (asks (same_mode other auto) mode ∷ []) a
  ]

  -- The rest of `chooseMode`, with the answer.
  unfoldable pub answered : Moment F.R → (is_auto : Bool) → Mode → Bool → App F.R → App F.R
  answered w is_auto mode false a = a
  answered w true mode true a = commit_mode w mode (abort_tests w a)
  answered w false mode true a = commit_mode w mode (on_panel (λ p. Panel.stop (env_of w a) p) a)

  unfoldable pub toggle_run : Moment F.R → (base : String) → App F.R → App F.R
  toggle_run w base a =
      if same_mode a.mode manual
      then on_panel (λ p. (Panel.toggle_run (env_of w a) base p).1) a
      else if is_running a.tests
      then abort_tests w a
      else if not a.panel.running
      then run_tests w a
      else a

  -- The primary button of the page.
  unfoldable pub press_hero : Moment F.R → App F.R → App F.R
  press_hero w a =
      if a.hero.start_button.disabled
      then a
      else if a.hero.running
      then abort_tests w a
      else run_tests w a

  -- `onAutoToggle`, if the panel's start button calls it.
  unfoldable pub auto_toggled : Moment F.R → Option Bool → App F.R → App F.R
  auto_toggled w none a = a
  auto_toggled w (some true) a = run_tests w a
  auto_toggled w (some false) a = abort_tests w a

  unfoldable pub press_panel : Moment F.R → (base : String) → App F.R → App F.R
  press_panel w base a =
      let (asked, p) = Panel.press_start (env_of w a) base a.panel in
      auto_toggled w asked (settle_panel (record a { panel = p }))

  unfoldable pub press_key : Moment F.R → (base : String) → Press → App F.R → App F.R
  press_key w base e a = elim (shortcut e) [
    | none ↦ a
    | some graph ↦ toggle_graph w a
    | some toggles_run ↦ toggle_run w base a
    | some toggles_download ↦
        on_panel (λ p. (Panel.toggle_direction (env_of w a) Engine.down p).1) a
    | some toggles_upload ↦ on_panel (λ p. (Panel.toggle_direction (env_of w a) Engine.up p).1) a
  ]

  -- The server answers a run that waits for it.
  unfoldable pub server_opens : Moment F.R → ℕ → Settled String → App F.R → App F.R
  server_opens w n answer a = elim (pick n a.opening) [
    | none ↦ a
    | some (peer, rest) ↦ settle_tests w (record a {
      opening = rest;
      tests = Controller.opened a.config.pacing answer a.tests;
      runs = a.runs ++ record { peer = peer; last_phase = idle } ∷ [];
    })
  ]

  -- A snapshot of a test that runs.
  unfoldable pub test_shows : Moment F.R → ℕ → Snapshot F.R → App F.R → App F.R
  test_shows w n s a = elim (pick n a.runs) [
    | none ↦ a
    | some (r, rest) ↦
        let (phase, tests) = Controller.on_update w.clocks s (r.last_phase, a.tests) in
        settle_tests w (record a { tests = tests; runs = record r { last_phase = phase } ∷ rest })
  ]

  -- A test that runs has ended.
  unfoldable pub test_ends : Moment F.R → ℕ → Snapshot F.R → App F.R → App F.R
  test_ends w n s a = elim (pick n a.runs) [
    | none ↦ a
    | some (r, rest) ↦
        settle_tests w
          (record a { runs = rest; tests = Controller.ended w.clocks s r.peer a.tests })
  ]

  unfoldable pub server_closes : Moment F.R → Settled RunOutcome → App F.R → App F.R
  server_closes w outcome a =
      settle_tests w (record a { tests = Controller.persisted outcome a.tests })

  unfoldable pub change_peer : Option Peer → App F.R → App F.R
  change_peer peer a = page (refreshes_connection ∷ []) (record a { peer = peer })
