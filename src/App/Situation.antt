-- ===== src/App/Situation.antt =====
-- web/src/ui/app.ts: who holds the link, as a machine of four situations.
use megapet.Common.{
  ℕ, ◌≡◌, refl, sym, subst, Bool, true, false, not, ◌&&◌, ◌||◌, Option, none, some, List, [], ◌∷◌,
  is_some, length, Num, arith,
}
use megapet.Features.ModeTabs.{Mode, auto, manual, same_mode}
use megapet.Features.Shortcuts.{shortcut, toggles_run}
use megapet.Features.MonitorPanel.State.{MonitorPanel}
use megapet.Features.TestController.Marks.{Mark, marks}
use megapet.App.State.{App, Moment, settle_tests, on_panel}
use megapet.App.Lit.{Lights, IsLit, IsSteady, Base, base_of, marked, steady-IsLit, on_panel-base}
use megapet.App.Marked.{settle_tests-IsLit, settle_tests-base}
use megapet.App.Events.{Event, presses_panel, keys}

-- Nothing runs; a manual session runs; a run waits for the server to open it; its test runs.
pub data Situation : Type 0 where
  at_rest in_session waits_for_server runs_test : Situation

-- How one situation follows another.
pub data Move : Situation → Situation → Type 0 where
  stays : {x : Situation} → Move x x
  session_starts : Move at_rest in_session
  session_stops : Move in_session at_rest
  server_asked : Move at_rest waits_for_server
  server_answers : Move waits_for_server runs_test
  test_starts : Move at_rest runs_test
  test_over : Move runs_test at_rest

abbrev session_of : Situation → Bool
session_of in_session = true
session_of other_situation = false

abbrev staged_of : Situation → Bool
staged_of waits_for_server = true
staged_of runs_test = true
staged_of other_situation = false

abbrev pub openings_of : Situation → ℕ
openings_of waits_for_server = 1
openings_of other_situation = 0

abbrev pub runs_of : Situation → ℕ
runs_of runs_test = 1
runs_of other_situation = 0

abbrev pub tested : Situation → Bool
tested runs_test = true
tested other_situation = false

abbrev tab_of : Situation → Option Mode
tab_of at_rest = none
tab_of in_session = some manual
tab_of waits_for_server = some auto
tab_of runs_test = some auto

-- What the page shows in a situation.
abbrev pub lights : Situation → Lights
lights x = record {
  session = session_of x;
  hold = staged_of x;
  hero_running = staged_of x;
  hero_blocked = session_of x;
  tab = tab_of x;
}

abbrev pub is_empty : {A : Type 0} → List A → Bool
is_empty [] = true
is_empty (x ∷ xs) = false

module _ ⦃F : Num⦄ where
  pub record IsBased (x : Situation) (b : Base) : Type 0 where
    pub silent : b.tests.log ≡ []
    pub openings : length b.opening ≡ openings_of x
    pub running : length b.runs ≡ runs_of x
    pub held : is_some b.tests.test ≡ tested x
    pub unforced : b.config.auto_start ≡ false

  -- The page is in a situation, and shows it: the panel, the button, the tabs and the controller
  -- agree, and at most one run or session is under way.
  pub record IsIn (x : Situation) (a : App F.R) : Type 0 where
    pub lit : IsLit (lights x) a
    pub based : IsBased x (base_of a)

  pub record Follows (x : Situation) (a : App F.R) : Type 0 where
    pub next : Situation
    pub move : Move x next
    pub is_in : IsIn next a

  pub still : (x : Situation) (a : App F.R) → IsIn x a → Follows x a
  still x a h = record { next = x; move = stays; is_in = h }

  -- The actions that the situations are about: the page's test is not asked for in the auto mode of
  -- the panel while a session runs, nor with the shortcut while the server has not answered yet.
  unfoldable pub careful : Event F.R → App F.R → Bool
  careful (presses_panel base) a = not (same_mode a.panel.mode auto && a.panel.running)
  careful (keys base e) a = elim (shortcut e) [
    | some toggles_run ↦ same_mode a.mode manual || is_empty a.opening
    | other_press ↦ true
  ]
  careful other_event a = true

  pub steady-IsIn :
      (x : Situation) (f : MonitorPanel F.R → MonitorPanel F.R) (a : App F.R)
      → IsSteady f
      → IsIn x a
      → IsIn x (on_panel f a)
  steady-IsIn x f a s h = record {
    lit = steady-IsLit (lights x) f a s h.lit;
    based = subst (IsBased x) (sym (on_panel-base f a)) h.based;
  }

  pub settled-IsIn :
      (x y : Situation) (w : Moment F.R) (ms : List Mark) (a : App F.R)
      → marks a.tests.log ≡ ms
      → IsLit (lights x) a
      → marked ms (lights x) ≡ lights y
      → IsBased y (base_of (record a { tests = record a.tests { log = [] } }))
      → IsIn y (settle_tests w a)
  settled-IsIn x y w ms a said lit e based = record {
    lit =
        subst (λ (l : Lights). IsLit l (settle_tests w a)) e
          (settle_tests-IsLit (lights x) w ms a said lit);
    based = subst (IsBased y) (sym (settle_tests-base w a)) based;
  }

  pub is_some-none : {A : Type 0} (o : Option A) → is_some o ≡ false → o ≡ none
  is_some-none none h = refl
  is_some-none (some a) h = ground arith
