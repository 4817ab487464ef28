-- ===== src/App/Overrun.antt =====
-- web/src/ui/app.ts: the panel's start button in auto mode does not look at the session.
use Prim.Native.String.{String}
use megapet.Common.{
  ◌+◌, ◌≡◌, sym, ap, ◌∙◌, subst, if◌then◌else◌, if_cases, Bool, true, false, not, ◌&&◌, Option,
  none, some, [], ◌∷◌, ◌++◌, length, length-append, Num, arith,
}
use mathlib.Core.Bool.{false≢true}
use megapet.Engine.Runner.{idle}
use megapet.Features.ModeTabs.{auto, same_mode}
use megapet.Features.MonitorPanel.State.{MonitorPanel, StartButton}
use megapet.Features.MonitorPanel.Controls.{auto_button, manual_button}
use megapet.Features.MonitorPanel.{press_start, toggle}
use megapet.Features.TestController as Controller
use megapet.Features.TestController.{TestController}
use megapet.Features.TestController.Marks.{marks, taken, begin-IsMarked}
use megapet.App.State.{App, Moment, env_of, is_running, settle_panel, settle_tests, run_tests}
use megapet.App.Lit.{Base, IsLit}
use megapet.App.Marked.{settle_tests-IsLit, settle_tests-base}
use megapet.App.{press_panel, auto_toggled}
use megapet.App.Situation.{in_session, lights, IsIn, is_some-none, steady-IsIn}
use megapet.App.Sessions.{same-IsSteady}

module _ ⦃F : Num⦄ where
  -- A run and a session are under way.
  pub record Overruns (a : App F.R) : Type 0 where
    pub staged : length a.opening + length a.runs ≡ 1
    pub session : a.panel.running ≡ true

  begun_twofold :
      (w : Moment F.R) (m : TestController F.R) (a : App F.R)
      → marks m.log ≡ taken
      → length a.opening + length a.runs ≡ 1
      → IsLit (lights in_session) a
      → Overruns (settle_tests w (record a { tests = m }))
  begun_twofold w m a e n lit =
      let after = settle_tests-base w (record a { tests = m }) in
      let shown =
        settle_tests-IsLit (lights in_session) w taken (record a { tests = m }) e
          (record { lit = lit.lit }) in
      record {
        staged = ap (λ (b : Base). length b.opening + length b.runs) after ∙ n;
        session = shown.lit.at.runs;
      }

  run_tests-Overruns : (w : Moment F.R) (a : App F.R) → IsIn in_session a → Overruns (run_tests w a)
  unfolding run_tests
  run_tests-Overruns w a h =
      let m = Controller.begin w.clocks a.config.pacing a.config.store_enabled a.peer a.tests in
      let v =
        begin-IsMarked w.clocks a.config.pacing a.config.store_enabled a.peer [] a.tests (record {
          marked = ap marks h.based.silent;
          under_way = is_some-none a.tests.test h.based.held;
        }) in
      let n = length-append a.opening (a.peer ∷ []) in
      let k = length-append a.runs (record { peer = a.peer; last_phase = idle } ∷ []) in
      if_cases Overruns (is_running a.tests) a _ (λ on. absurd (false≢true (sym h.based.held ∙ on)))
        λ _.
          if_cases Overruns a.config.store_enabled _ _
            (λ _.
              begun_twofold w m (record a { opening = a.opening ++ a.peer ∷ [] }) v.marked
                (omega (arith, n, h.based.openings, h.based.running)) (record { lit = h.lit.lit }))
            λ _.
              begun_twofold w m
                (record a { runs = a.runs ++ record { peer = a.peer; last_phase = idle } ∷ [] })
                v.marked (omega (arith, k, h.based.openings, h.based.running))
                (record { lit = h.lit.lit })

  never_disabled :
      (a : App F.R)
      → same_mode a.panel.mode auto ≡ true
      → IsIn in_session a
      → a.panel.start_button.disabled ≡ false
  unfolding auto_button
  never_disabled a m h =
      let (resumes, painted) = h.lit.lit.painted.shown.start in
      let idle = not a.panel.directions.down && not a.panel.directions.up in
      ap (λ (b : StartButton). b.disabled) painted
      ∙ ap
          (λ (k : Bool).
            (if k
              then auto_button a.panel.auto_running
              else manual_button a.panel.running a.panel.blocked idle resumes).disabled)
          m
      ∙ ap (λ (r : Bool). (auto_button r).disabled) h.lit.lit.at.staged

  -- Both tests at once: on a page with a manual session under way, if the panel presents the
  -- controls of auto mode, then pressing its start button begins a run and leaves the session
  -- running.
  pub press_panel-Overruns :
      (w : Moment F.R) (base : String) (a : App F.R)
      → same_mode a.panel.mode auto ≡ true
      → IsIn in_session a
      → Overruns (press_panel w base a)
  unfolding press_panel press_start auto_toggled
  press_panel-Overruns w base a m h =
      let Pressed : Option Bool × MonitorPanel F.R → Type 0 =
        λ q. Overruns (auto_toggled w q.0 (settle_panel (record a { panel = q.1 }))) in
      let kept = steady-IsIn in_session (λ p. p) a same-IsSteady h in
      if_cases Pressed a.panel.start_button.disabled (none, a.panel) _
        (λ e. absurd (false≢true (sym (never_disabled a m h) ∙ e)))
        λ _.
          if_cases Pressed (same_mode a.panel.mode auto) (some (not a.panel.auto_running), a.panel)
            (none, toggle (env_of w a) base a.panel)
            (λ _.
              subst (λ (asked : Bool). Overruns (auto_toggled w (some asked) (settle_panel a)))
                (sym (ap not h.lit.lit.at.staged)) (run_tests-Overruns w _ kept))
            λ e. absurd (false≢true (sym e ∙ m))
