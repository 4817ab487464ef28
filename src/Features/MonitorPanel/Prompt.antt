-- ===== src/Features/MonitorPanel/Prompt.antt =====
-- web/src/ui/features/monitor-panel.ts: when the start button is painted anew from what there is.
use Prim.Native.String.{String}
use mathlib.Core.Bool.{false≢true}
use megapet.Common.{
  ◌≡◌, ◌∙◌, ap, sym, ◌⊎◌, inl, inr, refl, if_cases, if◌then◌else◌, Bool, true, false, not, ◌&&◌,
  ◌||◌, ◌==◌, ltb, Option, [], ◌∷◌, Num,
}
use megapet.Engine.Monitor.{Key, starts, sets, stops, clears}
use megapet.Engine.Series.{size}
use megapet.Visuals.Jog as Jog
use megapet.Visuals.Viewport.{same}
use megapet.Features.ModeTabs.{Mode, same_mode, auto}
use megapet.Features.MonitorPanel.State.{MonitorPanel, Env, announce}
use megapet.Features.MonitorPanel.Controls.{
  calls, set_running, mark_running, paint_directions, paint_treadmill, update_export_button,
  start_button_of, manual_button, auto_button, lay_out,
}
use megapet.Features.MonitorPanel.Drawing.{draw, refresh, measure, measured, resized}
use megapet.Features.MonitorPanel.Looking.{gesture_cases}
use megapet.Features.MonitorPanel.Painted.{
  Controls, button, controls_of, engine-controls, refresh-controls, measure-controls,
}
use megapet.Features.MonitorPanel.{
  set_mode, set_auto_running, set_blocked, set_external_live, set_compact, set_show_graph, relaid,
  keep_frames, start_frames, stop_frames, session_ends, engine, run, toggle, stop, flip, redirect,
  pointed_at, same_text, started_message, press_start, press_clear, clear, press_switch,
  press_export, export_csv, toggle_run, toggle_direction, frame, switch_disabled,
}
use megapet.Features.MonitorPanel.Actions.{
  Action, act, is_outside, mode_is, external_live, auto_runs, compacts, shows_graph, blocks,
  clicks_start, clicks_clear, clicks_export, clicks_switch, keys_run, keys_direction, gestures,
  frames, resizes, stopped, turns, session_over,
}

module _ ⦃F : Num⦄ where
  -- The start button is exactly that of the panel: it offers to resume if the history has points.
  pub record IsPrompt (p : MonitorPanel F.R) : Type 0 where
    pub prompt : p.start_button ≡ button (not (size p.monitor.series == 0)) (controls_of p)

  set_running-IsPrompt :
      (env : Env F.R) (on : Bool) (p : MonitorPanel F.R) → IsPrompt (set_running env on p)
  unfolding set_running mark_running paint_directions paint_treadmill update_export_button
      start_button_of
  set_running-IsPrompt env on p =
      if_cases IsPrompt (same_mode p.mode auto) _ _ (λ _. record { prompt = refl })
        λ _. record { prompt = refl }

  refresh-IsPrompt : (env : Env F.R) (p : MonitorPanel F.R) → IsPrompt p → IsPrompt (refresh env p)
  unfolding refresh draw update_export_button start_button_of
  refresh-IsPrompt env p h = record { prompt = h.prompt }

  framed-IsPrompt :
      (on : Bool) (p : MonitorPanel F.R) → IsPrompt p → IsPrompt (record p { frame = on })
  unfolding start_button_of
  framed-IsPrompt on p h = record { prompt = h.prompt }

  keep_frames-IsPrompt :
      (env : Env F.R) (p : MonitorPanel F.R) → IsPrompt p → IsPrompt (keep_frames env p)
  unfolding keep_frames start_frames stop_frames
  keep_frames-IsPrompt env p h =
      if_cases IsPrompt _ _ _ (λ _. framed-IsPrompt true p h)
        λ _. refresh-IsPrompt env _ (framed-IsPrompt false p h)

  -- The word for a session that runs does not depend on the history.
  running-label :
      (running blocked idle x y : Bool)
      → running ≡ true
      → manual_button running blocked idle x ≡ manual_button running blocked idle y
  unfolding manual_button
  running-label true blocked idle x y h = refl
  running-label false blocked idle x y h = absurd (false≢true h)

  running-button :
      (p : MonitorPanel F.R)
      → p.running ≡ true
      → button (not (size p.monitor.series == 0)) (controls_of p) ≡ button true (controls_of p)
  running-button p h =
      ap (λ b. if same_mode p.mode auto then auto_button p.auto_running else b)
        (running-label p.running p.blocked _ _ true h)

  -- A running panel whose controls stay as they are is painted as before, whatever its history.
  running-IsPrompt :
      (p q : MonitorPanel F.R)
      → controls_of q ≡ controls_of p
      → p.running ≡ true
      → IsPrompt p
      → IsPrompt q
  running-IsPrompt p q same h k = record {
    prompt =
        ap (λ (c : Controls). c.start_button) same
        ∙ k.prompt
        ∙ running-button p h
        ∙ ap (λ (c : Controls). button true c) (sym same)
        ∙ sym (running-button q (ap (λ (c : Controls). c.running) same ∙ h));
  }

  -- From one panel to the next the start button stays as it is, or is painted anew.
  pub record IsNext (p q : MonitorPanel F.R) : Type 0 where
    pub next : (q.start_button ≡ p.start_button) ⊎ IsPrompt q

  same_button : (p q : MonitorPanel F.R) → controls_of q ≡ controls_of p → IsNext p q
  same_button p q e = record { next = inl (ap (λ (c : Controls). c.start_button) e) }

  prompt : (p q : MonitorPanel F.R) → IsPrompt q → IsNext p q
  prompt p q h = record { next = inr h }

  stays : (p : MonitorPanel F.R) → IsNext p p
  stays p = record { next = inl refl }

  set_mode-IsNext : (env : Env F.R) (m : Mode) (p : MonitorPanel F.R) → IsNext p (set_mode env m p)
  unfolding set_mode
  set_mode-IsNext env m p =
      if_cases (IsNext p) (same_mode p.mode m) p _ (λ _. stays p)
        λ _. prompt p _ (set_running-IsPrompt _ _ _)

  session_ends-IsNext : (env : Env F.R) (p : MonitorPanel F.R) → IsNext p (session_ends env p)
  unfolding session_ends start_button_of
  session_ends-IsNext env p =
      if_cases (IsNext p) (p.running && ltb 0 p.monitor.wakes) _ p
        (λ _.
          prompt p _ (record {
            prompt = (refresh-IsPrompt env _ (set_running-IsPrompt env false _)).prompt;
          }))
        λ _. stays p

  pointed_at-controls :
      (env : Env F.R) (base : String) (p : MonitorPanel F.R)
      → controls_of (pointed_at env base p) ≡ controls_of p
  unfolding pointed_at
  pointed_at-controls env base p =
      if_cases (λ q. controls_of q ≡ controls_of p) (same_text base p.monitor_base) p _ (λ _. refl)
        λ _. refl

  set_running-running :
      (env : Env F.R) (on : Bool) (p : MonitorPanel F.R) → (set_running env on p).running ≡ on
  unfolding set_running mark_running paint_directions paint_treadmill update_export_button
  set_running-running env on p =
      if_cases (λ (q : MonitorPanel F.R). q.running ≡ on) (same_mode p.mode auto) _ _ (λ _. refl)
        λ _. refl

  begun-IsPrompt :
      (env : Env F.R) (p : MonitorPanel F.R)
      → IsPrompt (
          calls
            (announce (started_message p.directions) ∷ [])
            (record (set_running env true p) { empty_note_hidden = true }))
  unfolding start_button_of
  begun-IsPrompt env p = record { prompt = (set_running-IsPrompt env true p).prompt }

  run-IsNext : (env : Env F.R) (base : String) (p : MonitorPanel F.R) → IsNext p (run env base p)
  unfolding run start_frames
  run-IsNext env base p =
      if_cases (IsNext p) p.running p _ (λ _. stays p)
        λ _.
          let q =
            calls (announce (started_message p.directions) ∷ [])
              (record (set_running env true p) { empty_note_hidden = true }) in
          let on = set_running-running env true p in
          let base_is = pointed_at-controls env base q in
          let pointed =
            running-IsPrompt q (pointed_at env base q) base_is on (begun-IsPrompt env p) in
          let there = ap (λ (c : Controls). c.running) base_is ∙ on in
          prompt p _ (
            running-IsPrompt _ _ (engine-controls env (starts p.directions) _) there
              (framed-IsPrompt true _ pointed))

  toggle-IsNext :
      (env : Env F.R) (base : String) (p : MonitorPanel F.R) → IsNext p (toggle env base p)
  unfolding toggle stop
  toggle-IsNext env base p =
      if_cases (IsNext p) p.running _ _ (λ _. same_button p _ (engine-controls env stops p))
        λ _. run-IsNext env base p

  press_start-IsNext :
      (env : Env F.R) (base : String) (p : MonitorPanel F.R) → IsNext p (press_start env base p).1
  unfolding press_start
  press_start-IsNext env base p =
      let After : Option Bool × MonitorPanel F.R → Type 0 = λ q. IsNext p q.1 in
      if_cases After p.start_button.disabled _ _ (λ _. stays p)
        λ _. if_cases After (same_mode p.mode auto) _ _ (λ _. stays p) λ _. toggle-IsNext env base p

  redirect-IsPrompt :
      (env : Env F.R) (p : MonitorPanel F.R) → IsPrompt p → IsPrompt (redirect env p)
  unfolding redirect
  redirect-IsPrompt env p h =
      if_cases IsPrompt p.running _ p
        (λ r. running-IsPrompt p _ (engine-controls env (sets p.directions) p) r h) λ _. h

  flip-IsNext : (env : Env F.R) (k : Key) (p : MonitorPanel F.R) → IsNext p (flip env k p)
  unfolding flip
  flip-IsNext env k p =
      prompt p _
        (refresh-IsPrompt env _ (redirect-IsPrompt env _ (set_running-IsPrompt env p.running _)))

  relaid-IsNext :
      (env : Env F.R) (p q : MonitorPanel F.R)
      → q.start_button ≡ p.start_button
      → IsNext p (relaid env q)
  unfolding relaid lay_out paint_treadmill measure refresh draw update_export_button
  relaid-IsNext env p q e = record { next = inl e }

  -- Whatever happens to the panel, the start button stays as it is or is painted from what there is.
  act-IsNext : (env : Env F.R) (a : Action F.R) (p : MonitorPanel F.R) → IsNext p (act env a p)
  unfolding act set_auto_running set_blocked set_external_live Jog.set_rate set_compact
      set_show_graph press_clear clear press_switch press_export export_csv toggle_run
      toggle_direction frame resized stop
  act-IsNext env (mode_is m) p = set_mode-IsNext env m p
  act-IsNext env (external_live d u) p =
      if_cases (IsNext p) (not p.blocked) p _ (λ _. stays p) λ _. record { next = inl refl }
  act-IsNext env (auto_runs on) p = prompt p _ (set_running-IsPrompt _ _ _)
  act-IsNext env (compacts c) p =
      if_cases (IsNext p) (if p.compact then not c else c) (relaid env (record p { compact = c })) p
        (λ _. relaid-IsNext env p _ refl) λ _. stays p
  act-IsNext env (shows_graph s) p =
      if_cases (IsNext p) (if p.show_graph then not s else s)
        (relaid env (record p { show_graph = s })) p (λ _. relaid-IsNext env p _ refl) λ _. stays p
  act-IsNext env (blocks reason d) p =
      prompt p _ (keep_frames-IsPrompt env _ (set_running-IsPrompt _ _ _))
  act-IsNext env (clicks_start base) p = press_start-IsNext env base p
  act-IsNext env clicks_clear p =
      if_cases (IsNext p) p.clear_disabled p _ (λ _. stays p)
        λ _.
          same_button p _
            (refresh-controls env (engine env clears p) ∙ engine-controls env clears p)
  act-IsNext env (clicks_export peer) p =
      if_cases (IsNext p) p.export_disabled p (export_csv env peer p) (λ _. stays p)
        λ _. record { next = inl refl }
  act-IsNext env (clicks_switch k) p =
      if_cases (IsNext p) (switch_disabled k p) p _ (λ _. stays p) λ _. flip-IsNext env k p
  act-IsNext env (keys_run base) p =
      let After : Bool × MonitorPanel F.R → Type 0 = λ q. IsNext p q.1 in
      if_cases After p.blocked _ _ (λ _. stays p) λ _. toggle-IsNext env base p
  act-IsNext env (keys_direction k) p =
      let After : Bool × MonitorPanel F.R → Type 0 = λ q. IsNext p q.1 in
      if_cases After (p.blocked || same_mode p.mode auto) _ _ (λ _. stays p)
        λ _. flip-IsNext env k p
  act-IsNext env (gestures drag g) p =
      gesture_cases env (IsNext p) g drag p (stays p) λ v. same_button p _ (refresh-controls env _)
  act-IsNext env frames p =
      if_cases (IsNext p) p.frame _ p (λ _. same_button p _ (refresh-controls env p)) λ _. stays p
  act-IsNext env resizes p =
      let size = measured env in
      if_cases (IsNext p) (same size.width p.size.width && same size.height p.size.height) p
        (refresh env (measure env p)) (λ _. stays p)
        λ _. same_button p _ (refresh-controls env (measure env p) ∙ measure-controls env p)
  act-IsNext env stopped p = same_button p _ (engine-controls env stops p)
  act-IsNext env (turns e) p =
      if_cases (IsNext p) (is_outside e) _ p (λ _. same_button p _ (engine-controls env e p))
        λ _. stays p
  act-IsNext env session_over p = session_ends-IsNext env p

  -- What an action does to the start button: a change of the staged test or of who holds the link
  -- paints it, and any other action paints it or leaves it as it is.
  abbrev pub Repaints : Action F.R → (before after : MonitorPanel F.R) → Type 0
  Repaints (auto_runs on) p q = IsPrompt q
  Repaints (blocks reason d) p q = IsPrompt q
  Repaints a p q = IsNext p q

  pub act-Repaints :
      (env : Env F.R) (a : Action F.R) (p : MonitorPanel F.R) → Repaints a p (act env a p)
  unfolding act set_auto_running set_blocked
  act-Repaints env (auto_runs on) p = set_running-IsPrompt _ _ _
  act-Repaints env (blocks reason d) p = keep_frames-IsPrompt env _ (set_running-IsPrompt _ _ _)
  act-Repaints env a p = act-IsNext env a p
