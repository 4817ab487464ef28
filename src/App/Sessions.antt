-- ===== src/App/Sessions.antt =====
-- web/src/ui/app.ts: how the panel moves the page from situation to situation.
use Prim.Native.String.{String}
use megapet.Common.{
  ◌≡◌, refl, sym, ap, ◌∙◌, subst, if◌then◌else◌, if_cases, Bool, true, false, not, ◌&&◌, Option,
  none, some, [], ◌∷◌, Num, arith, inl, inr,
}
use mathlib.Core.Bool.{false≢true}
use megapet.Engine.Monitor as Engine
use megapet.Engine.Monitor.{clears}
use megapet.Features.ModeTabs.{auto, same_mode}
use megapet.Features.MonitorPanel.State.{MonitorPanel, Env, StartButton}
use megapet.Features.MonitorPanel.Controls.{manual_button, auto_button}
use megapet.Features.MonitorPanel.{toggle, toggle_run, press_start, session_ends, stop, run}
use megapet.Features.MonitorPanel.Repainted.{turned, run-IsPainted, session_ends-IsPainted}
use megapet.Features.MonitorPanel.Told.{IsAt, at_engine}
use megapet.Features.MonitorPanel.Steady.{run-IsAt, session_ends-IsAt}
use megapet.App.State.{App, Moment, on_panel, settle_panel, env_of}
use megapet.App.Lit.{IsSteady, on_panel-IsLit, on_panel-base, status_of}
use megapet.App.{press_panel, auto_toggled}
use megapet.App.Situation.{
  Situation, at_rest, in_session, waits_for_server, runs_test, session_starts, session_stops,
  lights, IsIn, IsBased, Follows, still, steady-IsIn,
}
use megapet.App.Runs.{run_tests-Follows, abort_tests-IsIn}

module _ ⦃F : Num⦄ where
  -- A session starts from rest.
  pub run-IsIn :
      (env : Env F.R) (base : String) (a : App F.R)
      → IsIn at_rest a
      → IsIn in_session (on_panel (run env base) a)
  run-IsIn env base a h = record {
    lit =
        on_panel-IsLit (lights at_rest) true false (true ∷ []) (run env base) a
          (run-IsPainted env base a.panel h.lit.lit.painted)
          (run-IsAt (status_of [] (lights at_rest)) env base a.panel refl h.lit.lit.at) h.lit;
    based = subst (IsBased in_session) (sym (on_panel-base (run env base) a)) (record {
      silent = h.based.silent;
      openings = h.based.openings;
      running = h.based.running;
      held = h.based.held;
      unforced = h.based.unforced;
    });
  }

  pub stop-IsSteady : (env : Env F.R) → IsSteady (stop env)
  unfolding stop
  stop-IsSteady env = record {
    paints = turned env Engine.stops;
    stays = λ s p. at_engine s env Engine.stops p;
  }

  -- `toggle`, by who holds the link: it stops a session, starts one from rest, and does neither
  -- while a test is staged if the panel does not ask for it.
  toggled_in :
      (x : Situation) (env : Env F.R) (base : String) (a : App F.R)
      → a.panel.blocked ≡ false
      → IsIn x a
      → Follows x (on_panel (toggle env base) a)
  unfolding toggle
  toggled_in at_rest env base a e h =
      if_cases (λ (p : MonitorPanel F.R). Follows at_rest (settle_panel (record a { panel = p })))
        a.panel.running _ _ (λ on. absurd (false≢true (sym h.lit.lit.at.runs ∙ on)))
        λ _. record { next = in_session; move = session_starts; is_in = run-IsIn env base a h }
  toggled_in in_session env base a e h =
      if_cases
        (λ (p : MonitorPanel F.R). Follows in_session (settle_panel (record a { panel = p })))
        a.panel.running _ _
        (λ _. still in_session _ (steady-IsIn in_session (stop env) a (stop-IsSteady env) h))
        λ off. absurd (false≢true (sym off ∙ h.lit.lit.at.runs))
  toggled_in waits_for_server env base a e h = absurd (false≢true (sym e ∙ h.lit.lit.at.held))
  toggled_in runs_test env base a e h = absurd (false≢true (sym e ∙ h.lit.lit.at.held))

  pub same-IsSteady : IsSteady (λ (p : MonitorPanel F.R). p)
  same-IsSteady = record { paints = λ p h. h; stays = λ s p h. h }

  pub toggle_run-Follows :
      (x : Situation) (env : Env F.R) (base : String) (a : App F.R)
      → IsIn x a
      → Follows x (on_panel (λ p. (toggle_run env base p).1) a)
  unfolding toggle_run
  toggle_run-Follows x env base a h =
      if_cases
        (λ (q : Bool × MonitorPanel F.R). Follows x (settle_panel (record a { panel = q.1 })))
        a.panel.blocked (false, a.panel) (true, toggle env base a.panel)
        (λ _. still x _ (steady-IsIn x (λ p. p) a same-IsSteady h)) λ e. toggled_in x env base a e h

  -- A start button that can be pressed in manual mode is one that no staged test holds.
  enabled :
      (x : Situation) (a : App F.R)
      → a.panel.start_button.disabled ≡ false
      → same_mode a.panel.mode auto ≡ false
      → IsIn x a
      → (a.panel.blocked && not a.panel.running) ≡ false
  unfolding manual_button
  enabled x a e m h =
      let (resumes, painted) = h.lit.lit.painted.shown.start in
      let idle = not a.panel.directions.down && not a.panel.directions.up in
      sym (
        ap (λ (b : StartButton). b.disabled) painted
        ∙ ap
            (λ (k : Bool).
              (if k
                then auto_button a.panel.auto_running
                else manual_button a.panel.running a.panel.blocked idle resumes).disabled)
            m)
      ∙ e

  unblocked :
      (x : Situation) (a : App F.R)
      → (a.panel.blocked && not a.panel.running) ≡ false
      → IsIn x a
      → a.panel.blocked ≡ false
  unblocked at_rest a e h = h.lit.lit.at.held
  unblocked in_session a e h = h.lit.lit.at.held
  unblocked waits_for_server a e h = ground (arith, e, h.lit.lit.at.held, h.lit.lit.at.runs)
  unblocked runs_test a e h = ground (arith, e, h.lit.lit.at.held, h.lit.lit.at.runs)

  -- The auto mode's button begins a run from rest, and aborts one that is under way.
  auto_toggled_in :
      (x : Situation) (w : Moment F.R) (asked : Bool) (a : App F.R)
      → asked ≡ not (lights x).hold
      → (lights x).session ≡ false
      → IsIn x a
      → Follows x (auto_toggled w (some asked) a)
  unfolding auto_toggled
  auto_toggled_in at_rest w true a e off h = run_tests-Follows w a h
  auto_toggled_in at_rest w false a e off h = absurd (false≢true e)
  auto_toggled_in in_session w asked a e off h = absurd (false≢true (sym off))
  auto_toggled_in waits_for_server w true a e off h = absurd (false≢true (sym e))
  auto_toggled_in waits_for_server w false a e off h =
      still waits_for_server _ (abort_tests-IsIn waits_for_server w a h)
  auto_toggled_in runs_test w true a e off h = absurd (false≢true (sym e))
  auto_toggled_in runs_test w false a e off h = still runs_test _ (abort_tests-IsIn runs_test w a h)

  pub press_panel-Follows :
      (x : Situation) (w : Moment F.R) (base : String) (a : App F.R)
      → not (same_mode a.panel.mode auto && a.panel.running) ≡ true
      → IsIn x a
      → Follows x (press_panel w base a)
  unfolding press_panel press_start auto_toggled
  press_panel-Follows x w base a careful h =
      let env = env_of w a in
      let Pressed : Option Bool × MonitorPanel F.R → Type 0 =
        λ q. Follows x (auto_toggled w q.0 (settle_panel (record a { panel = q.1 }))) in
      let kept = steady-IsIn x (λ p. p) a same-IsSteady h in
      if_cases Pressed a.panel.start_button.disabled (none, a.panel) _ (λ _. still x _ kept)
        λ e.
          if_cases Pressed (same_mode a.panel.mode auto) (some (not a.panel.auto_running), a.panel)
            (none, toggle env base a.panel)
            (λ m.
              auto_toggled_in x w (not a.panel.auto_running) _ (ap not h.lit.lit.at.staged)
                (sym h.lit.lit.at.runs ∙ ground (arith, m, careful)) kept)
            λ m. toggled_in x env base a (unblocked x a (enabled x a e m h) h) h

  ended_in :
      (x : Situation) (env : Env F.R) (a : App F.R)
      → (lights x).session ≡ true
      → IsAt
          (status_of (false ∷ []) (record (lights x) { session = false }))
          (session_ends env a.panel)
      → IsIn x a
      → Follows x (on_panel (session_ends env) a)
  ended_in at_rest env a on v h = absurd (false≢true on)
  ended_in waits_for_server env a on v h = absurd (false≢true on)
  ended_in runs_test env a on v h = absurd (false≢true on)
  ended_in in_session env a on v h = record {
    next = at_rest;
    move = session_stops;
    is_in = record {
      lit =
          on_panel-IsLit (lights in_session) false false (false ∷ []) (session_ends env) a
            (session_ends-IsPainted env a.panel h.lit.lit.painted) v h.lit;
      based = subst (IsBased at_rest) (sym (on_panel-base (session_ends env) a)) (record {
        silent = h.based.silent;
        openings = h.based.openings;
        running = h.based.running;
        held = h.based.held;
        unforced = h.based.unforced;
      });
    };
  }

  pub session_ends-Follows :
      (x : Situation) (env : Env F.R) (a : App F.R)
      → IsIn x a
      → Follows x (on_panel (session_ends env) a)
  session_ends-Follows x env a h =
      elim (session_ends-IsAt (status_of [] (lights x)) env a.panel h.lit.lit.at) [
        | inl v ↦ still x _ (record {
          lit =
              on_panel-IsLit (lights x) (lights x).session (lights x).hold [] (session_ends env) a
                (session_ends-IsPainted env a.panel h.lit.lit.painted) v h.lit;
          based = subst (IsBased x) (sym (on_panel-base (session_ends env) a)) h.based;
        })
        | inr (on, v) ↦ ended_in x env a on v h
      ]
