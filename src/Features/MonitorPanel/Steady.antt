-- ===== src/Features/MonitorPanel/Steady.antt =====
-- web/src/ui/features/monitor-panel.ts: what changes whether a session runs, and tells the page.
use Prim.Native.String.{String}
use megapet.Common.{
  ltb, ◌≡◌, refl, sym, ap, ◌∙◌, if◌then◌else◌, if_cases, Bool, true, false, not, ◌&&◌, ◌||◌, Option,
  none, [], ◌∷◌, ◌++◌, Num, inl, inr, ◌⊎◌,
}
use mathlib.Core.Bool.{false≢true}
use megapet.Engine.Monitor.{Key, Directions, stops, sets, session_resumes}
use megapet.Features.ModeTabs.{Mode, same_mode}
use megapet.Features.MonitorPanel.State.{MonitorPanel, Env, announce}
use megapet.Features.MonitorPanel.Controls.{
  calls, set_running, paint_directions, lay_out, paint_treadmill,
}
use megapet.Features.MonitorPanel.{
  set_mode, set_external_live, set_auto_running, set_compact, set_show_graph, set_blocked, engine,
  stop, run, flip, redirect, relaid, start_frames, stop_frames, keep_frames, pointed_at, same_text,
  flipped, session_ends, started_message,
}
use megapet.Features.MonitorPanel.Told.{
  told_none, Status, if_new, and_left, IsAt, at_refresh, at_measure, at_calls, at_engine,
  set_running-IsAt, at_repaint,
}

module _ ⦃F : Num⦄ where
  pub at_directions : (s : Status) (p : MonitorPanel F.R) → IsAt s p → IsAt s (paint_directions p)
  unfolding paint_directions
  at_directions s p h = record { runs = h.runs; held = h.held; staged = h.staged; said = h.said }

  pub at_set_mode :
      (s : Status) (env : Env F.R) (m : Mode) (p : MonitorPanel F.R)
      → IsAt s p
      → IsAt s (set_mode env m p)
  unfolding set_mode paint_directions
  at_set_mode s env m p h =
      if_cases (IsAt s) (same_mode p.mode m) p _ (λ _. h)
        λ _. at_repaint s env _ (
          at_directions s (record p { mode = m })
            (record { runs = h.runs; held = h.held; staged = h.staged; said = h.said }))

  pub at_external_live :
      (s : Status) (d u : F.R) (p : MonitorPanel F.R) → IsAt s p → IsAt s (set_external_live d u p)
  unfolding set_external_live
  at_external_live s d u p h =
      if_cases (IsAt s) (not p.blocked) p _ (λ _. h)
        λ _. record { runs = h.runs; held = h.held; staged = h.staged; said = h.said }

  at_relaid :
      (s : Status) (env : Env F.R) (compact show : Bool) (p : MonitorPanel F.R)
      → IsAt s p
      → IsAt s (relaid env (record p { compact = compact; show_graph = show }))
  unfolding relaid lay_out paint_treadmill
  at_relaid s env compact show p h = at_refresh s env _ (
      at_measure s env _
        (record { runs = h.runs; held = h.held; staged = h.staged; said = h.said }))

  pub at_set_compact :
      (s : Status) (env : Env F.R) (c : Bool) (p : MonitorPanel F.R)
      → IsAt s p
      → IsAt s (set_compact env c p)
  unfolding set_compact
  at_set_compact s env c p h =
      if_cases (IsAt s) (if p.compact then not c else c) _ p
        (λ _. at_relaid s env c p.show_graph p h) λ _. h

  pub at_set_show_graph :
      (s : Status) (env : Env F.R) (g : Bool) (p : MonitorPanel F.R)
      → IsAt s p
      → IsAt s (set_show_graph env g p)
  unfolding set_show_graph
  at_set_show_graph s env g p h =
      if_cases (IsAt s) (if p.show_graph then not g else g) _ p
        (λ _. at_relaid s env p.compact g p h) λ _. h

  at_redirect :
      (s : Status) (env : Env F.R) (p : MonitorPanel F.R) → IsAt s p → IsAt s (redirect env p)
  unfolding redirect
  at_redirect s env p h =
      if_cases (IsAt s) p.running _ p (λ _. at_engine s env (sets p.directions) p h) λ _. h

  pub at_flip :
      (s : Status) (env : Env F.R) (k : Key) (p : MonitorPanel F.R)
      → IsAt s p
      → IsAt s (flip env k p)
  unfolding flip paint_directions
  at_flip s env k p h = at_refresh s env _ (
      at_redirect s env _ (
        at_repaint s env _ (
          at_directions s (record p { directions = flipped k p.directions })
            (record { runs = h.runs; held = h.held; staged = h.staged; said = h.said }))))

  at_stop : (s : Status) (env : Env F.R) (p : MonitorPanel F.R) → IsAt s p → IsAt s (stop env p)
  unfolding stop
  at_stop s env p h = at_engine s env stops p h

  pub at_set_auto_running :
      (s : Status) (env : Env F.R) (on : Bool) (p : MonitorPanel F.R)
      → IsAt s p
      → IsAt (record s { auto_running = on }) (set_auto_running env on p)
  unfolding set_auto_running
  at_set_auto_running s env on p h =
      at_repaint (record s { auto_running = on }) env (record p { auto_running = on })
        (record { runs = h.runs; held = h.held; staged = refl; said = h.said })

  at_keep_frames :
      (s : Status) (env : Env F.R) (p : MonitorPanel F.R) → IsAt s p → IsAt s (keep_frames env p)
  unfolding keep_frames start_frames stop_frames
  at_keep_frames s env p h =
      if_cases (IsAt s) (p.blocked || p.running) (record p { frame = true }) _
        (λ _. record { runs = h.runs; held = h.held; staged = h.staged; said = h.said })
        λ _.
          at_refresh s env _
            (record { runs = h.runs; held = h.held; staged = h.staged; said = h.said })

  pub at_set_blocked :
      (s : Status) (env : Env F.R) (reason : Bool) (d : Option Directions) (p : MonitorPanel F.R)
      → IsAt s p
      → IsAt (record s { blocked = reason }) (set_blocked env reason d p)
  unfolding set_blocked paint_directions
  at_set_blocked s env reason d p h =
      let t = record s { blocked = reason } in
      at_keep_frames t env _ (
        at_repaint t env _ (
          at_directions t (record p { blocked = reason; external = if reason then d else none })
            (record { runs = h.runs; held = refl; staged = h.staged; said = h.said })))

  at_pointed :
      (s : Status) (env : Env F.R) (base : String) (p : MonitorPanel F.R)
      → IsAt s p
      → IsAt s (pointed_at env base p)
  unfolding pointed_at
  at_pointed s env base p h =
      if_cases (IsAt s) (same_text base p.monitor_base) p _ (λ _. h)
        λ _. record { runs = h.runs; held = h.held; staged = h.staged; said = h.said }

  -- A session starts, and the page is told.
  pub run-IsAt :
      (s : Status) (env : Env F.R) (base : String) (p : MonitorPanel F.R)
      → s.running ≡ false
      → IsAt s p
      → IsAt (record s { running = true; told = s.told ++ true ∷ [] }) (run env base p)
  unfolding run start_frames
  run-IsAt s env base p off h =
      let t : Status = record s { running = true; told = s.told ++ true ∷ [] } in
      let v = set_running-IsAt s env true p h in
      let said = v.said ∙ ap (λ (b : Bool). s.told ++ if_new b true) off in
      if_cases (IsAt t) p.running p _ (λ e. absurd (false≢true (sym off ∙ sym h.runs ∙ e)))
        λ _.
          let pointed =
            at_pointed t env base
              (calls (announce (started_message p.directions) ∷ [])
                (record (set_running env true p) { empty_note_hidden = true }))
              (record {
                runs = v.runs;
                held = v.held;
                staged = v.staged;
                said =
                    told_none (set_running env true p).log
                      (announce (started_message p.directions) ∷ []) refl
                    ∙ said;
              }) in
          at_engine t env _ _ (record {
            runs = pointed.runs;
            held = pointed.held;
            staged = pointed.staged;
            said = pointed.said;
          })

  -- The rest of `run`: the session is over, and the page is told.
  pub session_ends-IsAt :
      (s : Status) (env : Env F.R) (p : MonitorPanel F.R)
      → IsAt s p
      → IsAt s (session_ends env p)
        ⊎ ((s.running ≡ true)
            × IsAt (record s { running = false; told = s.told ++ false ∷ [] }) (session_ends env p))
  unfolding session_ends stop_frames
  session_ends-IsAt s env p h =
      let t : Status = record s { running = false; told = s.told ++ false ∷ [] } in
      let resumed = at_engine s env session_resumes p h in
      let v =
        set_running-IsAt s env false (record (engine env session_resumes p) { frame = false })
          (record {
            runs = resumed.runs;
            held = resumed.held;
            staged = resumed.staged;
            said = resumed.said;
          }) in
      if_cases (λ (q : MonitorPanel F.R). IsAt s q ⊎ ((s.running ≡ true) × IsAt t q))
        (p.running && ltb 0 p.monitor.wakes) _ p
        (λ e.
          let on = sym h.runs ∙ and_left p.running (ltb 0 p.monitor.wakes) e in
          let u = at_refresh t env _ (record {
            runs = v.runs;
            held = v.held;
            staged = v.staged;
            said = v.said ∙ ap (λ (b : Bool). s.told ++ if_new b false) on;
          }) in
          inr (on, at_calls t (announce "Manual mode stopped." ∷ []) _ refl u))
        λ _. inl h
