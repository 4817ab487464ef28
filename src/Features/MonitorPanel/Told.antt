-- ===== src/Features/MonitorPanel/Told.antt =====
-- web/src/ui/features/monitor-panel.ts: whether a session runs, and what the page is told of it.
use megapet.Common.{
  ◌≡◌, refl, sym, ap, ◌∙◌, if◌then◌else◌, if_cases, Bool, true, false, not, ◌&&◌, List, [], ◌∷◌,
  ◌++◌, Num, arith,
}
use mathlib.Core.List.{append-nil, append_assoc}
use megapet.Engine.Monitor.{Key, down, up, Directions, starts, stops, sets, clears, session_resumes}
use megapet.Engine.Monitor as Engine
use megapet.Features.ModeTabs.{same_mode, auto}
use megapet.Features.MonitorPanel.State.{MonitorPanel, Env, Call, running_change, readings, runs}
use megapet.Features.MonitorPanel.Controls.{
  calls, set_running, mark_running, paint_directions, paint_treadmill, update_export_button,
}
use megapet.Features.MonitorPanel.Drawing.{draw, refresh, measure}
use megapet.Features.MonitorPanel.{engine, handle, deliver, apply_update}

module _ {R : Type 0} where
  abbrev pub told_by : Call R → List Bool
  told_by (running_change on) = on ∷ []
  told_by other_call = []

  -- What the calls of a log say of the session.
  abbrev pub told : List (Call R) → List Bool
  told [] = []
  told (c ∷ cs) = told_by c ++ told cs

  told-append : (xs ys : List (Call R)) → told (xs ++ ys) ≡ told xs ++ told ys
  told-append [] ys = refl
  told-append (c ∷ xs) ys =
      ap (λ (t : List Bool). told_by c ++ t) (told-append xs ys)
      ∙ sym (append_assoc (told_by c) (told xs) (told ys))

  pub told_none : (xs cs : List (Call R)) → told cs ≡ [] → told (xs ++ cs) ≡ told xs
  told_none xs cs e =
      told-append xs cs ∙ ap (λ (t : List Bool). told xs ++ t) e ∙ append-nil (told xs)

pub record Status : Type 0 where
  pub running : Bool
  pub blocked : Bool
  pub auto_running : Bool
  pub told : List Bool

abbrev pub if_new : (before after : Bool) → List Bool
if_new before after = if (if before then not after else after) then after ∷ [] else []

pub and_left : (a b : Bool) → (a && b) ≡ true → a ≡ true
and_left a b h = ground arith

if_new-same : (b : Bool) → if_new b b ≡ []
if_new-same true = refl
if_new-same false = refl

module _ ⦃F : Num⦄ where
  pub record IsAt (s : Status) (p : MonitorPanel F.R) : Type 0 where
    pub runs : p.running ≡ s.running
    pub held : p.blocked ≡ s.blocked
    pub staged : p.auto_running ≡ s.auto_running
    pub said : told p.log ≡ s.told

  pub at_refresh :
      (s : Status) (env : Env F.R) (p : MonitorPanel F.R) → IsAt s p → IsAt s (refresh env p)
  unfolding refresh draw update_export_button
  at_refresh s env p h = record { runs = h.runs; held = h.held; staged = h.staged; said = h.said }

  pub at_measure :
      (s : Status) (env : Env F.R) (p : MonitorPanel F.R) → IsAt s p → IsAt s (measure env p)
  unfolding measure
  at_measure s env p h = record { runs = h.runs; held = h.held; staged = h.staged; said = h.said }

  pub at_calls :
      (s : Status) (cs : List (Call F.R)) (p : MonitorPanel F.R)
      → told cs ≡ []
      → IsAt s p
      → IsAt s (calls cs p)
  at_calls s cs p e h = record {
    runs = h.runs;
    held = h.held;
    staged = h.staged;
    said = told_none p.log cs e ∙ h.said;
  }

  at_handle :
      (s : Status) (c : Engine.Call F.R) (p : MonitorPanel F.R) → IsAt s p → IsAt s (handle c p)
  unfolding handle apply_update
  at_handle s (Engine.on_update u) p h = record {
    runs = h.runs;
    held = h.held;
    staged = h.staged;
    said = told_none p.log (readings u.down_mbps u.up_mbps ∷ []) refl ∙ h.said;
  }
  at_handle s (Engine.on_sample points) p h = h
  at_handle s (Engine.on_error message) p h = at_calls s _ p refl h
  at_handle s (Engine.spawn_download n) p h =
      at_calls s (runs (Engine.spawn_download n) ∷ []) p refl h
  at_handle s (Engine.spawn_upload n bytes) p h =
      at_calls s (runs (Engine.spawn_upload n bytes) ∷ []) p refl h

  at_deliver :
      (s : Status) (cs : List (Engine.Call F.R)) (p : MonitorPanel F.R)
      → IsAt s p
      → IsAt s (deliver cs p)
  unfolding deliver
  at_deliver s [] p h = h
  at_deliver s (c ∷ cs) p h = at_deliver s cs (handle c p) (at_handle s c p h)

  pub at_engine :
      (s : Status) (env : Env F.R) (e : Engine.Event F.R) (p : MonitorPanel F.R)
      → IsAt s p
      → IsAt s (engine env e p)
  unfolding engine
  at_engine s env e p h =
      at_deliver s _ _ (record { runs = h.runs; held = h.held; staged = h.staged; said = h.said })

  told_if :
      (b : Bool) (on : Bool)
      → told {R = F.R} (if b then running_change on ∷ [] else []) ≡ (if b then on ∷ [] else [])
  told_if true on = refl
  told_if false on = refl

  pub set_running-IsAt :
      (s : Status) (env : Env F.R) (on : Bool) (p : MonitorPanel F.R)
      → IsAt s p
      → IsAt
          (record s { running = on; told = s.told ++ if_new s.running on })
          (set_running env on p)
  unfolding set_running mark_running paint_directions paint_treadmill update_export_button
  set_running-IsAt s env on p h =
      let said =
        told-append p.log _
        ∙ ap (λ (t : List Bool). told p.log ++ t) (told_if (if p.running then not on else on) on)
        ∙ ap (λ (t : List Bool). t ++ if_new p.running on) h.said
        ∙ ap (λ (b : Bool). s.told ++ if_new b on) h.runs in
      if_cases (IsAt (record s { running = on; told = s.told ++ if_new s.running on }))
        (same_mode p.mode auto) _ _
        (λ _. record { runs = refl; held = h.held; staged = h.staged; said = said })
        λ _. record { runs = refl; held = h.held; staged = h.staged; said = said }

  -- Nothing is told if nothing changes.
  pub at_repaint :
      (s : Status) (env : Env F.R) (p : MonitorPanel F.R)
      → IsAt s p
      → IsAt s (set_running env p.running p)
  at_repaint s env p h =
      let v = set_running-IsAt s env p.running p h in
      record {
        runs = v.runs ∙ h.runs;
        held = v.held;
        staged = v.staged;
        said =
            v.said
            ∙ ap (λ (b : Bool). s.told ++ if_new s.running b) h.runs
            ∙ ap (λ (t : List Bool). s.told ++ t) (if_new-same s.running)
            ∙ append-nil s.told;
      }
