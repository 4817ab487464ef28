-- ===== src/Features/MonitorPanel/Repainted.antt =====
-- web/src/ui/features/monitor-panel.ts: what each operation leaves painted.
use Prim.Native.String.{String}
use megapet.Common.{
  ltb, ◌≡◌, refl, sym, subst, if◌then◌else◌, if_cases, Bool, true, false, not, ◌&&◌, ◌||◌, Option,
  none, List, [], ◌∷◌, Num, arith,
}
use megapet.Engine.Monitor.{
  Key, down, up, Directions, TestParams, starts, stops, sets, clears, session_resumes,
}
use megapet.Engine.Monitor as Engine
use megapet.Visuals.Jog as Jog
use megapet.Visuals.Viewport.{GraphViewport}
use megapet.Features.ModeTabs.{Mode, same_mode, auto}
use megapet.Features.MonitorPanel.State.{MonitorPanel, Env, Call, announce}
use megapet.Features.MonitorPanel.Controls.{
  calls, set_running, paint_directions, lay_out, paint_treadmill,
}
use megapet.Features.MonitorPanel.Drawing.{refresh, measure}
use megapet.Features.MonitorPanel.Painted.{
  IsPainted, IsShown, IsLaid, controls_of, refresh-controls, engine-controls, set_running-IsPainted,
  set_active-active,
}
use megapet.Features.MonitorPanel.{
  set_mode, set_external_live, set_auto_running, set_blocked, engine, press_start, toggle,
  session_ends, stop, run, flip, relaid, start_frames, stop_frames, keep_frames, pointed_at,
  same_text, flipped, redirect, started_message,
}

module _ ⦃F : Num⦄ where
  -- The frame loop is none of what is painted.
  framed : (on : Bool) (p : MonitorPanel F.R) → IsPainted p → IsPainted (record p { frame = on })
  framed on p h = record {
    shown = record {
      start = h.shown.start;
      down = h.shown.down;
      up = h.shown.up;
      warns = h.shown.warns;
      jogs_for = h.shown.jogs_for;
      laid = record { laid = h.shown.laid.laid; borrowed = h.shown.laid.borrowed };
    };
  }

  -- What is not painted does not matter.
  same_controls :
      (p q : MonitorPanel F.R) → controls_of q ≡ controls_of p → IsPainted p → IsPainted q
  same_controls p q e h = record { shown = subst IsShown (sym e) h.shown }

  painted_layout : (p : MonitorPanel F.R) → IsPainted p → IsLaid (controls_of p)
  painted_layout p h = h.shown.laid

  pub refreshed : (env : Env F.R) (p : MonitorPanel F.R) → IsPainted p → IsPainted (refresh env p)
  refreshed env p h = same_controls p (refresh env p) (refresh-controls env p) h

  pub looked :
      (env : Env F.R) (v : GraphViewport F.R) (p : MonitorPanel F.R)
      → IsPainted p
      → IsPainted (refresh env (record p { viewport = v }))
  looked env v p h = refreshed env (record p { viewport = v }) (record { shown = h.shown })

  pub turned :
      (env : Env F.R) (e : Engine.Event F.R) (p : MonitorPanel F.R)
      → IsPainted p
      → IsPainted (engine env e p)
  turned env e p h = same_controls p (engine env e p) (engine-controls env e p) h

  pub sized : (env : Env F.R) (p : MonitorPanel F.R) → IsPainted p → IsPainted (measure env p)
  unfolding measure
  sized env p h = record { shown = h.shown }

  pub said : (cs : List (Call F.R)) (p : MonitorPanel F.R) → IsPainted p → IsPainted (calls cs p)
  said cs p h = record { shown = h.shown }

  repainted :
      (env : Env F.R) (p : MonitorPanel F.R)
      → IsLaid (controls_of p)
      → IsPainted (set_running env p.running (paint_directions p))
  unfolding paint_directions
  repainted env p v =
      set_running-IsPainted env p.running _ (record { laid = v.laid; borrowed = v.borrowed })

  pub relaid-IsPainted :
      (env : Env F.R) (compact show : Bool) (p : MonitorPanel F.R)
      → IsPainted p
      → IsPainted (relaid env (record p { compact = compact; show_graph = show }))
  unfolding relaid lay_out paint_treadmill
  relaid-IsPainted env compact show p h = refreshed env _ (
      sized env _ (record {
        shown = record {
          start = h.shown.start;
          down = h.shown.down;
          up = h.shown.up;
          warns = h.shown.warns;
          jogs_for = set_active-active _ _ _;
          laid = record { laid = refl; borrowed = h.shown.laid.borrowed };
        };
      }))

  pub set_mode-IsPainted :
      (env : Env F.R) (m : Mode) (p : MonitorPanel F.R) → IsPainted p → IsPainted (set_mode env m p)
  unfolding set_mode
  set_mode-IsPainted env m p h =
      if_cases IsPainted (same_mode p.mode m) p _ (λ _. h)
        λ _.
          repainted env (record p { mode = m })
            (record { laid = h.shown.laid.laid; borrowed = h.shown.laid.borrowed })

  pub live-IsPainted :
      (d u : F.R) (p : MonitorPanel F.R) → IsPainted p → IsPainted (set_external_live d u p)
  unfolding set_external_live Jog.set_rate
  live-IsPainted d u p h =
      if_cases IsPainted (not p.blocked) p _ (λ _. h) λ _. record { shown = h.shown }

  borrows :
      (reason : Bool) (d : Option Directions) → reason ≡ false → (if reason then d else none) ≡ none
  borrows true d e = ground arith
  borrows false d e = refl

  keep_frames-IsPainted :
      (env : Env F.R) (p : MonitorPanel F.R) → IsPainted p → IsPainted (keep_frames env p)
  unfolding keep_frames start_frames stop_frames
  keep_frames-IsPainted env p h =
      if_cases IsPainted (p.blocked || p.running) (record p { frame = true }) _
        (λ _. framed true p h) λ _. refreshed env _ (framed false p h)

  pub set_auto_running-IsPainted :
      (env : Env F.R) (on : Bool) (p : MonitorPanel F.R)
      → IsPainted p
      → IsPainted (set_auto_running env on p)
  unfolding set_auto_running
  set_auto_running-IsPainted env on p h =
      set_running-IsPainted env p.running (record p { auto_running = on })
        (record { laid = h.shown.laid.laid; borrowed = h.shown.laid.borrowed })

  pub set_blocked-IsPainted :
      (env : Env F.R) (reason : Bool) (d : Option Directions) (p : MonitorPanel F.R)
      → IsPainted p
      → IsPainted (set_blocked env reason d p)
  unfolding set_blocked
  set_blocked-IsPainted env reason d p h = keep_frames-IsPainted env _ (
      repainted env (record p { blocked = reason; external = if reason then d else none })
        (record { laid = h.shown.laid.laid; borrowed = borrows reason d }))

  pointed_at-IsPainted :
      (env : Env F.R) (base : String) (p : MonitorPanel F.R)
      → IsPainted p
      → IsPainted (pointed_at env base p)
  unfolding pointed_at
  pointed_at-IsPainted env base p h =
      if_cases IsPainted (same_text base p.monitor_base) p _ (λ _. h)
        λ _. record { shown = h.shown }

  pub run-IsPainted :
      (env : Env F.R) (base : String) (p : MonitorPanel F.R)
      → IsPainted p
      → IsPainted (run env base p)
  unfolding run start_frames
  run-IsPainted env base p h =
      if_cases IsPainted p.running p _ (λ _. h)
        λ _. turned env _ _ (
          framed true _ (
            pointed_at-IsPainted env base _ (
              said (announce (started_message p.directions) ∷ [])
                (record (set_running env true p) { empty_note_hidden = true })
                (record { shown = (set_running-IsPainted env true p h.shown.laid).shown }))))

  pub toggle-IsPainted :
      (env : Env F.R) (base : String) (p : MonitorPanel F.R)
      → IsPainted p
      → IsPainted (toggle env base p)
  unfolding toggle stop
  toggle-IsPainted env base p h =
      if_cases IsPainted p.running _ _ (λ _. turned env stops p h) λ _. run-IsPainted env base p h

  -- Of a result and a panel, the panel.
  pub record IsSecond {A : Type 0} (q : A × MonitorPanel F.R) : Type 0 where
    pub second : IsPainted q.1

  pub second : {A : Type 0} {q : A × MonitorPanel F.R} → IsSecond q → IsPainted q.1
  second s = s.second

  pub press_start-IsPainted :
      (env : Env F.R) (base : String) (p : MonitorPanel F.R)
      → IsPainted p
      → IsSecond (press_start env base p)
  unfolding press_start
  press_start-IsPainted env base p h =
      if_cases IsSecond p.start_button.disabled _ _ (λ _. record { second = h })
        λ _.
          if_cases IsSecond (same_mode p.mode auto) _ _ (λ _. record { second = h })
            λ _. record { second = toggle-IsPainted env base p h }

  redirect-IsPainted :
      (env : Env F.R) (p : MonitorPanel F.R) → IsPainted p → IsPainted (redirect env p)
  unfolding redirect
  redirect-IsPainted env p h =
      if_cases IsPainted p.running _ p (λ _. turned env (sets p.directions) p h) λ _. h

  pub flip-IsPainted :
      (env : Env F.R) (k : Key) (p : MonitorPanel F.R) → IsPainted p → IsPainted (flip env k p)
  unfolding flip
  flip-IsPainted env k p h = refreshed env _ (
      redirect-IsPainted env _ (
        repainted env (record p { directions = flipped k p.directions })
          (record { laid = h.shown.laid.laid; borrowed = h.shown.laid.borrowed })))

  pub session_ends-IsPainted :
      (env : Env F.R) (p : MonitorPanel F.R) → IsPainted p → IsPainted (session_ends env p)
  unfolding session_ends stop_frames
  session_ends-IsPainted env p h =
      if_cases IsPainted (p.running && ltb 0 p.monitor.wakes) _ p
        (λ _. said _ _ (
          refreshed env _ (
            set_running-IsPainted env false _
              (painted_layout _ (framed false _ (turned env session_resumes p h))))))
        λ _. h
