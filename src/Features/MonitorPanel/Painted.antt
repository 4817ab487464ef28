-- ===== src/Features/MonitorPanel/Painted.antt =====
-- web/src/ui/features/monitor-panel.ts: the controls show what the panel holds.
use megapet.Common.{
  ℕ, ◌==◌, ◌≡◌, refl, ◌∙◌, if◌then◌else◌, if_cases, Bool, true, false, not, ◌&&◌, ◌||◌, Option,
  none, List, [], ◌∷◌, Num, or_else,
}
use megapet.Engine.Series.{size}
use megapet.Engine.Monitor as Engine
use megapet.Engine.Monitor.{Directions, is_bidirectional}
use megapet.Visuals.Jog as Jog
use megapet.Features.ModeTabs.{Mode, auto, same_mode}
use megapet.Features.MonitorPanel.State.{MonitorPanel, Env, StartButton, Switch, Layout}
use megapet.Features.MonitorPanel.Controls.{
  set_running, mark_running, paint_directions, paint_treadmill, update_export_button, layout_of,
  switch_of, manual_button, auto_button, start_button_of,
}
use megapet.Features.MonitorPanel.Drawing.{draw, refresh, measure}
use megapet.Features.MonitorPanel.{deliver, handle, engine, apply_update}

-- What the controls are painted from, and what they show.
pub record Controls : Type 0 where
  pub compact : Bool
  pub show_graph : Bool
  pub directions : Directions
  pub running : Bool
  pub blocked : Bool
  pub mode : Mode
  pub auto_running : Bool
  pub external : Option Directions
  pub jogging : Bool
  pub frame : Bool
  pub start_button : StartButton
  pub switch_down : Switch
  pub switch_up : Switch
  pub warning_hidden : Bool
  pub layout : Layout

-- The start button, with whether there is a history to resume.
abbrev pub button : (resumes : Bool) → Controls → StartButton
button resumes c =
    if same_mode c.mode auto
    then auto_button c.auto_running
    else manual_button c.running c.blocked (not c.directions.down && not c.directions.up) resumes

abbrev pub lit : Controls → Directions
lit c = or_else c.external c.directions

abbrev pub fixed : Controls → Bool
fixed c = c.blocked || same_mode c.mode auto

-- What is painted whenever it changes.
pub record IsLaid (c : Controls) : Type 0 where
  pub laid : c.layout ≡ layout_of c.compact c.show_graph
  pub borrowed : c.blocked ≡ false → c.external ≡ none

pub record IsShown (c : Controls) : Type 0 where
  pub start : (resumes : Bool) × (c.start_button ≡ button resumes c)
  pub down : c.switch_down ≡ switch_of c.running (fixed c) (lit c).down
  pub up : c.switch_up ≡ switch_of c.running (fixed c) (lit c).up
  pub warns : c.warning_hidden ≡ not (is_bidirectional (lit c))
  pub jogs_for : c.jogging ≡ (not c.show_graph && (c.running || c.blocked))
  pub laid : IsLaid c

module _ ⦃F : Num⦄ where
  abbrev pub controls_of : MonitorPanel F.R → Controls
  controls_of p = record {
    compact = p.compact;
    show_graph = p.show_graph;
    directions = p.directions;
    running = p.running;
    blocked = p.blocked;
    mode = p.mode;
    auto_running = p.auto_running;
    external = p.external;
    jogging = p.treadmill.active;
    frame = p.frame;
    start_button = p.start_button;
    switch_down = p.switch_down;
    switch_up = p.switch_up;
    warning_hidden = p.warning_hidden;
    layout = p.layout;
  }

  pub record IsPainted (p : MonitorPanel F.R) : Type 0 where
    pub shown : IsShown (controls_of p)

  pub refresh-controls :
      (env : Env F.R) (p : MonitorPanel F.R) → controls_of (refresh env p) ≡ controls_of p
  unfolding refresh draw update_export_button
  refresh-controls env p = refl

  pub measure-controls :
      (env : Env F.R) (p : MonitorPanel F.R) → controls_of (measure env p) ≡ controls_of p
  unfolding measure
  measure-controls env p = refl

  handle-controls :
      (c : Engine.Call F.R) (p : MonitorPanel F.R) → controls_of (handle c p) ≡ controls_of p
  unfolding handle apply_update Jog.set_rate
  handle-controls (Engine.on_update u) p = refl
  handle-controls (Engine.on_sample s) p = refl
  handle-controls (Engine.on_error message) p = refl
  handle-controls (Engine.spawn_download n) p = refl
  handle-controls (Engine.spawn_upload n bytes) p = refl

  deliver-controls :
      (cs : List (Engine.Call F.R)) (p : MonitorPanel F.R)
      → controls_of (deliver cs p) ≡ controls_of p
  unfolding deliver
  deliver-controls [] p = refl
  deliver-controls (c ∷ cs) p = deliver-controls cs (handle c p) ∙ handle-controls c p

  pub engine-controls :
      (env : Env F.R) (e : Engine.Event F.R) (p : MonitorPanel F.R)
      → controls_of (engine env e p) ≡ controls_of p
  unfolding engine
  engine-controls env e p = deliver-controls _ _

  start-active : (now : ℕ) (t : Jog.Treadmill F.R) → (Jog.start now t).active ≡ t.active
  unfolding Jog.start
  start-active now t =
      if_cases (λ (u : Jog.Treadmill F.R). u.active ≡ t.active) t.frame t _ (λ _. refl) λ _. refl

  pub set_active-active :
      (now : ℕ) (on : Bool) (t : Jog.Treadmill F.R) → (Jog.set_active now on t).active ≡ on
  unfolding Jog.set_active Jog.set_rate Jog.stop
  set_active-active now true t =
      if_cases (λ (u : Jog.Treadmill F.R). u.active ≡ true) t.active t _ (λ e. e)
        λ _. start-active now _
  set_active-active now false t =
      if_cases (λ (u : Jog.Treadmill F.R). u.active ≡ false) t.active _ t (λ _. refl) λ e. e

  abbrev set_to : Bool → Controls → Controls
  set_to running c = record c { running = running }

  -- Whatever it showed before, the panel shows what it holds once `setRunning` has been called.
  pub set_running-IsPainted :
      (env : Env F.R) (running : Bool) (p : MonitorPanel F.R)
      → IsLaid (controls_of p)
      → IsPainted (set_running env running p)
  unfolding set_running mark_running paint_directions paint_treadmill update_export_button
      start_button_of
  set_running-IsPainted env running p v =
      if_cases IsPainted (same_mode p.mode auto) _ _
        (λ e. record {
          shown = record {
            start = (not (size p.monitor.series == 0), refl);
            down = refl;
            up = refl;
            warns = refl;
            jogs_for = set_active-active _ _ _;
            laid = record { laid = v.laid; borrowed = v.borrowed };
          };
        })
        λ e. record {
          shown = record {
            start = (not (size p.monitor.series == 0), refl);
            down = refl;
            up = refl;
            warns = refl;
            jogs_for = set_active-active _ _ _;
            laid = record { laid = v.laid; borrowed = v.borrowed };
          };
        }
