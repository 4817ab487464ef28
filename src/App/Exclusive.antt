-- ===== src/App/Exclusive.antt =====
-- web/src/ui/app.ts: one test at a time.
use Prim.Native.String.{String}
use megapet.Common.{
  ℕ, ◌+◌, ◌≤◌, ◌≡◌, refl, sym, ap, ◌∙◌, if_cases, option_cases, Bool, true, false, not, ◌||◌,
  Option, none, some, List, [], ◌∷◌, length, Num, arith,
}
use mathlib.Core.Bool.{false≢true}
use megapet.Engine.Monitor as Engine
use megapet.Features.ModeTabs.{Mode, auto, manual, same_mode}
use megapet.Features.Hero as Hero
use megapet.Features.Hero.{StartButton, start_button_of, same_kind}
use megapet.Features.Shortcuts.{
  Press, Shortcut, shortcut, graph, toggles_run, toggles_download, toggles_upload,
}
use megapet.Features.MonitorPanel as Panel
use megapet.Features.MonitorPanel.{
  flip, press_clear, clear, press_export, export_csv, press_switch, frame, stop, engine,
  switch_disabled, export_calls, toggle_run,
}
use megapet.App.State.{App, Moment, asks, env_of, is_running, on_panel, run_tests, abort_tests}
use megapet.App.{
  running_mode, choose_mode, answered, commit_mode, press_hero, press_key, change_peer,
  toggle_graph,
}
use megapet.App as Page
use megapet.App.Events.{
  Event, step, steps, presses_hero, toggles_graph, presses_panel, keys, panels, selects, answers,
  goes, arrives, opens, shows, ends, closes, picks, visuals,
}
use megapet.App.Situation.{
  Situation, at_rest, in_session, waits_for_server, runs_test, IsIn, Follows, still, steady-IsIn,
  careful, is_empty,
}
use megapet.App.Runs.{
  run_tests-Follows, abort_tests-IsIn, server_closes-IsIn, server_opens-Follows, test_shows-IsIn,
  test_ends-Follows,
}
use megapet.App.Sessions.{toggle_run-Follows, press_panel-Follows, stop-IsSteady}
use megapet.App.Own.{own-Follows}
use megapet.App.Places.{
  page-IsIn, resolve-IsIn, navigate-IsIn, toggle_graph-IsIn, commit_mode-IsIn,
  toggle_direction-IsSteady,
}

is_empty-length : {A : Type 0} (xs : List A) → is_empty xs ≡ true → length xs ≡ 0
is_empty-length [] h = refl
is_empty-length (x ∷ xs) h = ground arith

module _ ⦃F : Num⦄ where
  -- The page's button begins a run from rest only: a session disables it.
  hero_begins :
      (x : Situation) (w : Moment F.R) (a : App F.R)
      → a.hero.start_button.disabled ≡ false
      → a.hero.running ≡ false
      → IsIn x a
      → Follows x (run_tests w a)
  unfolding start_button_of
  hero_begins at_rest w a e off h = run_tests-Follows w a h
  hero_begins in_session w a e off h = absurd (
      false≢true (
        sym e
        ∙ ap (λ (b : StartButton). b.disabled) h.lit.lit.hero_painted
        ∙ ap (λ (r : Bool). (start_button_of r a.hero.blocked).disabled) h.lit.lit.hero_runs
        ∙ ap (λ (b : Bool). (start_button_of false b).disabled) h.lit.lit.hero_stands))
  hero_begins waits_for_server w a e off h = absurd (false≢true (sym off ∙ h.lit.lit.hero_runs))
  hero_begins runs_test w a e off h = absurd (false≢true (sym off ∙ h.lit.lit.hero_runs))

  press_hero-Follows :
      (x : Situation) (w : Moment F.R) (a : App F.R) → IsIn x a → Follows x (press_hero w a)
  unfolding press_hero
  press_hero-Follows x w a h =
      if_cases (Follows x) a.hero.start_button.disabled a _ (λ _. still x a h)
        λ e.
          if_cases (Follows x) a.hero.running _ _ (λ _. still x _ (abort_tests-IsIn x w a h))
            λ off. hero_begins x w a e off h

  key_begins :
      (x : Situation) (w : Moment F.R) (a : App F.R)
      → is_empty a.opening ≡ true
      → is_running a.tests ≡ false
      → not a.panel.running ≡ true
      → IsIn x a
      → Follows x (run_tests w a)
  key_begins at_rest w a e idle off h = run_tests-Follows w a h
  key_begins in_session w a e idle off h =
      absurd (false≢true (ap not (sym h.lit.lit.at.runs) ∙ off))
  key_begins waits_for_server w a e idle off h =
      absurd (ground (arith, is_empty-length a.opening e, h.based.openings))
  key_begins runs_test w a e idle off h = absurd (false≢true (sym idle ∙ h.based.held))

  key_run-Follows :
      (x : Situation) (w : Moment F.R) (base : String) (a : App F.R)
      → (same_mode a.mode manual || is_empty a.opening) ≡ true
      → IsIn x a
      → Follows x (Page.toggle_run w base a)
  unfolding Page.toggle_run
  key_run-Follows x w base a careful h =
      if_cases (Follows x) (same_mode a.mode manual) _ _
        (λ _. toggle_run-Follows x (env_of w a) base a h)
        λ m.
          if_cases (Follows x) (is_running a.tests) _ _ (λ _. still x _ (abort_tests-IsIn x w a h))
            λ idle.
              if_cases (Follows x) (not a.panel.running) _ a
                (λ off. key_begins x w a (ground (arith, m, careful)) idle off h) λ _. still x a h

  press_key-Follows :
      (x : Situation) (w : Moment F.R) (base : String) (e : Press) (a : App F.R)
      → careful (keys base e) a ≡ true
      → IsIn x a
      → Follows x (press_key w base e a)
  unfolding press_key careful
  press_key-Follows x w base e a c h = by_shortcut (shortcut e) c
    where
      by_shortcut :
          (o : Option Shortcut)
          → elim o [
            | some toggles_run ↦ same_mode a.mode manual || is_empty a.opening
            | other_press ↦ true
          ]
            ≡ true
          → Follows x (elim o [
            | none ↦ a
            | some graph ↦ toggle_graph w a
            | some toggles_run ↦ Page.toggle_run w base a
            | some toggles_download ↦
                on_panel (λ p. (Panel.toggle_direction (env_of w a) Engine.down p).1) a
            | some toggles_upload ↦
                on_panel (λ p. (Panel.toggle_direction (env_of w a) Engine.up p).1) a
          ])
      by_shortcut none c = still x a h
      by_shortcut (some graph) c = still x _ (toggle_graph-IsIn x w a h)
      by_shortcut (some toggles_run) c = key_run-Follows x w base a c h
      by_shortcut (some toggles_download) c =
          still x _ (steady-IsIn x _ a (toggle_direction-IsSteady (env_of w a) Engine.down) h)
      by_shortcut (some toggles_upload) c =
          still x _ (steady-IsIn x _ a (toggle_direction-IsSteady (env_of w a) Engine.up) h)

  choose_mode-IsIn :
      (x : Situation) (w : Moment F.R) (m : Mode) (a : App F.R)
      → IsIn x a
      → IsIn x (choose_mode w m a)
  unfolding choose_mode
  choose_mode-IsIn x w m a h =
      option_cases (IsIn x) (running_mode a) (commit_mode w m a) _ (λ _. commit_mode-IsIn x w m a h)
        λ other _.
          if_cases (IsIn x) (same_mode other m) _ _ (λ _. commit_mode-IsIn x w m a h)
            λ _. page-IsIn x (asks (same_mode other auto) m ∷ []) a h

  answered-IsIn :
      (x : Situation) (w : Moment F.R) (is_auto : Bool) (m : Mode) (stop_it : Bool) (a : App F.R)
      → IsIn x a
      → IsIn x (answered w is_auto m stop_it a)
  unfolding answered
  answered-IsIn x w is_auto m false a h = h
  answered-IsIn x w true m true a h =
      commit_mode-IsIn x w m (abort_tests w a) (abort_tests-IsIn x w a h)
  answered-IsIn x w false m true a h =
      commit_mode-IsIn x w m _ (steady-IsIn x _ a (stop-IsSteady (env_of w a)) h)

  set_visual-IsIn :
      (x : Situation) (kind : Hero.VisualKind) (a : App F.R)
      → IsIn x a
      → IsIn x (record a { hero = Hero.set_visual kind a.hero })
  unfolding Hero.set_visual
  set_visual-IsIn x kind a h =
      if_cases (λ (hero : Hero.Hero). IsIn x (record a { hero = hero }))
        (same_kind kind a.hero.kind) a.hero _
        (λ _. record { lit = record { lit = h.lit.lit }; based = h.based })
        λ _. record { lit = record { lit = h.lit.lit }; based = h.based }

  -- A page whose `auto_start` is off and that shows who holds the link, a manual session, a staged
  -- run or nobody, shows it again after any careful event: the panel's session and its hold, the
  -- start buttons, the mode's tab and the controller's flag all agree with the situation that the
  -- page is then in, at most one run or session is under way, and one situation follows another as
  -- in the relation Move, which has no way from a session to a run. An event is careful unless it is
  -- a press of the panel's start button in auto mode while a session runs, or of the shortcut in
  -- auto mode while the server has not yet answered.
  pub step-Follows :
      (x : Situation) (w : Moment F.R) (e : Event F.R) (a : App F.R)
      → careful e a ≡ true
      → IsIn x a
      → Follows x (step w e a)
  unfolding step careful change_peer
  step-Follows x w presses_hero a c h = press_hero-Follows x w a h
  step-Follows x w toggles_graph a c h = still x _ (toggle_graph-IsIn x w a h)
  step-Follows x w (presses_panel base) a c h = press_panel-Follows x w base a c h
  step-Follows x w (keys base e) a c h = press_key-Follows x w base e a c h
  step-Follows x w (panels e) a c h = own-Follows x w e a h
  step-Follows x w (selects m) a c h = still x _ (choose_mode-IsIn x w m a h)
  step-Follows x w (answers is_auto m stop_it) a c h =
      still x _ (answered-IsIn x w is_auto m stop_it a h)
  step-Follows x w (goes path) a c h = still x _ (navigate-IsIn x w path a h)
  step-Follows x w (arrives path) a c h =
      still x _
        (resolve-IsIn x w path _ (record { lit = record { lit = h.lit.lit }; based = h.based }))
  step-Follows x w (opens n answer) a c h = server_opens-Follows x w n answer a h
  step-Follows x w (shows n s) a c h = still x _ (test_shows-IsIn x w n s a h)
  step-Follows x w (ends n s) a c h = test_ends-Follows x w n s a h
  step-Follows x w (closes outcome) a c h = still x _ (server_closes-IsIn x w outcome a h)
  step-Follows x w (picks peer) a c h =
      still x _ (record { lit = record { lit = h.lit.lit }; based = h.based })
  step-Follows x w (visuals kind) a c h = still x _ (set_visual-IsIn x kind a h)

  -- Each event of a sequence is careful where it happens.
  abbrev pub Careful : List (Moment F.R × Event F.R) → App F.R → Type 0
  Careful [] a = Unit
  Careful ((w, e) ∷ rest) a = (careful e a ≡ true) × Careful rest (step w e a)

  pub record Reaches (a : App F.R) : Type 0 where
    pub situation : Situation
    pub is_in : IsIn situation a

  pub steps-Reaches :
      (x : Situation) (events : List (Moment F.R × Event F.R)) (a : App F.R)
      → Careful events a
      → IsIn x a
      → Reaches (steps events a)
  unfolding steps
  steps-Reaches x [] a c h = record { situation = x; is_in = h }
  steps-Reaches x ((w, e) ∷ rest) a c h =
      let f = step-Follows x w e a c.0 h in steps-Reaches f.next rest (step w e a) c.1 f.is_in

  abbrev pub bit : Bool → ℕ
  bit true = 1
  bit false = 0

  pub one_at_a_time :
      (x : Situation) (a : App F.R)
      → IsIn x a
      → length a.opening + length a.runs + bit a.panel.running ≤ 1
  one_at_a_time at_rest a h =
      omega (arith, h.based.openings, h.based.running, ap bit h.lit.lit.at.runs)
  one_at_a_time in_session a h =
      omega (arith, h.based.openings, h.based.running, ap bit h.lit.lit.at.runs)
  one_at_a_time waits_for_server a h =
      omega (arith, h.based.openings, h.based.running, ap bit h.lit.lit.at.runs)
  one_at_a_time runs_test a h =
      omega (arith, h.based.openings, h.based.running, ap bit h.lit.lit.at.runs)
