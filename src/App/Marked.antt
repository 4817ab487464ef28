-- ===== src/App/Marked.antt =====
-- web/src/ui/app.ts: what the controller says of the link is shown by the whole page.
use megapet.Common.{
  ◌≡◌, refl, sym, ◌∙◌, subst, if◌then◌else◌, if_cases, Bool, Option, none, some, List, [], ◌∷◌,
  ◌++◌, is_some, Num,
}
use megapet.Engine.Monitor.{Directions}
use megapet.Features.ModeTabs as ModeTabs
use megapet.Features.ModeTabs.{Mode}
use megapet.Features.Hero as Hero
use megapet.Features.Hero.{paint_start}
use megapet.Features.MonitorPanel.State.{MonitorPanel, Env}
use megapet.Features.MonitorPanel.Drawing.{refresh}
use megapet.Features.MonitorPanel.{set_auto_running, set_blocked, set_external_live}
use megapet.Features.MonitorPanel.Painted.{IsPainted}
use megapet.Features.MonitorPanel.Repainted.{
  refreshed, set_auto_running-IsPainted, set_blocked-IsPainted, live-IsPainted,
}
use megapet.Features.MonitorPanel.Told.{IsAt, at_refresh}
use megapet.Features.MonitorPanel.Steady.{at_external_live, at_set_auto_running, at_set_blocked}
use megapet.Features.TestController.Calls.{
  Call, activity, stats_reset, stats_rest, stats_active, stat, visual_reset, visual_land,
  visual_park, visual_active, running, visual_drive, visual_accent, visual_phase, visual_reading,
  visual_position, visual_progress, live, sampled, announce, notify, opens_run, starts, aborts,
  closes_run, saved,
}
use megapet.Features.TestController.Marks.{Mark, holds, shows, marks, marked_by}
use megapet.App.State.{App, Moment, test_call, test_calls, settle_tests, env_of, auto_if}
use megapet.App.Lit.{
  Lights, IsLit, IsSteady, base_of, marked, auto_when, on_panel-IsLit, on_panel-base, steady-IsLit,
  status_of,
}

module _ ⦃F : Num⦄ where
  pub refresh-IsSteady : (env : Env F.R) → IsSteady (refresh env)
  refresh-IsSteady env = record { paints = refreshed env; stays = λ s p. at_refresh s env p }

  live-IsSteady : (d u : F.R) → IsSteady (set_external_live d u)
  live-IsSteady d u = record {
    paints = live-IsPainted d u;
    stays = λ s p. at_external_live s d u p;
  }

  auto_if-when : {A : Type 0} (d : Option A) → auto_if d ≡ auto_when (is_some d)
  auto_if-when none = refl
  auto_if-when (some d) = refl

  -- What `onActivity` asks of the panel.
  abbrev told_of : Env F.R → Option Directions → MonitorPanel F.R → MonitorPanel F.R
  told_of env d p =
      let blocked = set_blocked env (is_some d) d (set_auto_running env (is_some d) p) in
      if is_some d then blocked else refresh env blocked

  told_of-IsPainted :
      (env : Env F.R) (d : Option Directions) (p : MonitorPanel F.R)
      → IsPainted p
      → IsPainted (told_of env d p)
  told_of-IsPainted env d p h =
      let q =
        set_blocked-IsPainted env (is_some d) d _
          (set_auto_running-IsPainted env (is_some d) p h) in
      if_cases IsPainted (is_some d) _ _ (λ _. q) λ _. refreshed env _ q

  told_of-IsAt :
      (l : Lights) (env : Env F.R) (d : Option Directions) (p : MonitorPanel F.R)
      → IsAt (status_of [] l) p
      → IsAt (status_of [] (record l { hold = is_some d })) (told_of env d p)
  told_of-IsAt l env d p h =
      let s = status_of [] (record l { hold = is_some d }) in
      let q =
        at_set_blocked _ env (is_some d) d _
          (at_set_auto_running (status_of [] l) env (is_some d) p h) in
      if_cases (IsAt s) (is_some d) _ _
        (λ _. record { runs = q.runs; held = q.held; staged = q.staged; said = q.said })
        λ _.
          at_refresh s env _
            (record { runs = q.runs; held = q.held; staged = q.staged; said = q.said })

  activity-IsLit :
      (l : Lights) (w : Moment F.R) (d : Option Directions) (a : App F.R)
      → IsLit l a
      → IsLit
          (record l { hold = is_some d; tab = auto_when (is_some d) })
          (test_call w (activity d) a)
  unfolding test_call ModeTabs.set_running
  activity-IsLit l w d a h =
      on_panel-IsLit (record l { tab = auto_when (is_some d) }) l.session (is_some d) []
        (told_of (env_of w a) d) (record a { modes = ModeTabs.set_running (auto_if d) a.modes })
        (told_of-IsPainted (env_of w a) d a.panel h.lit.painted)
        (told_of-IsAt l (env_of w a) d a.panel h.lit.at)
        (record {
          lit = record {
            painted = h.lit.painted;
            at = record {
              runs = h.lit.at.runs;
              held = h.lit.at.held;
              staged = h.lit.at.staged;
              said = h.lit.at.said;
            };
            hero_runs = h.lit.hero_runs;
            hero_stands = h.lit.hero_stands;
            hero_painted = h.lit.hero_painted;
            tabbed = auto_if-when d;
          };
        })

  running-IsLit :
      (l : Lights) (w : Moment F.R) (on : Bool) (a : App F.R)
      → IsLit l a
      → IsLit (record l { hero_running = on }) (test_call w (running on) a)
  unfolding test_call Hero.set_running paint_start
  running-IsLit l w on a h = record {
    lit = record {
      painted = h.lit.painted;
      at = record {
        runs = h.lit.at.runs;
        held = h.lit.at.held;
        staged = h.lit.at.staged;
        said = h.lit.at.said;
      };
      hero_runs = refl;
      hero_stands = h.lit.hero_stands;
      hero_painted = refl;
      tabbed = h.lit.tabbed;
    };
  }

  call-IsLit :
      (l : Lights) (w : Moment F.R) (c : Call F.R) (a : App F.R)
      → IsLit l a
      → IsLit (marked (marked_by c) l) (test_call w c a)
  unfolding test_call
  call-IsLit l w (activity d) a h = activity-IsLit l w d a h
  call-IsLit l w (running on) a h = running-IsLit l w on a h
  call-IsLit l w sampled a h = steady-IsLit l _ a (refresh-IsSteady (env_of w a)) h
  call-IsLit l w (live d u) a h = steady-IsLit l _ a (live-IsSteady d u) h
  call-IsLit l w stats_reset a h = record { lit = h.lit }
  call-IsLit l w stats_rest a h = record { lit = h.lit }
  call-IsLit l w (stats_active key) a h = record { lit = h.lit }
  call-IsLit l w (stat key figure) a h = record { lit = h.lit }
  call-IsLit l w visual_reset a h = record { lit = h.lit }
  call-IsLit l w visual_land a h = record { lit = h.lit }
  call-IsLit l w visual_park a h = record { lit = h.lit }
  call-IsLit l w (visual_active on) a h = record { lit = h.lit }
  call-IsLit l w (visual_drive drive) a h = record { lit = h.lit }
  call-IsLit l w (visual_accent accent) a h = record { lit = h.lit }
  call-IsLit l w (visual_phase label icon) a h = record { lit = h.lit }
  call-IsLit l w (visual_reading r unit) a h = record { lit = h.lit }
  call-IsLit l w (visual_position r) a h = record { lit = h.lit }
  call-IsLit l w (visual_progress r) a h = record { lit = h.lit }
  call-IsLit l w (announce words) a h = record { lit = h.lit }
  call-IsLit l w (notify words) a h = record { lit = h.lit }
  call-IsLit l w (opens_run base) a h = record { lit = h.lit }
  call-IsLit l w (starts t pacing id) a h = record { lit = h.lit }
  call-IsLit l w (aborts t) a h = record { lit = h.lit }
  call-IsLit l w (closes_run base id labels) a h = record { lit = h.lit }
  call-IsLit l w (saved id) a h = record { lit = h.lit }

  marked-append : (xs ys : List Mark) (l : Lights) → marked (xs ++ ys) l ≡ marked ys (marked xs l)
  marked-append [] ys l = refl
  marked-append (holds on ∷ xs) ys l = marked-append xs ys _
  marked-append (shows on ∷ xs) ys l = marked-append xs ys _

  calls-IsLit :
      (l : Lights) (w : Moment F.R) (cs : List (Call F.R)) (a : App F.R)
      → IsLit l a
      → IsLit (marked (marks cs) l) (test_calls w cs a)
  unfolding test_calls
  calls-IsLit l w [] a h = h
  calls-IsLit l w (c ∷ cs) a h =
      subst (λ (k : Lights). IsLit k (test_calls w cs (test_call w c a)))
        (sym (marked-append (marked_by c) (marks cs) l))
        (calls-IsLit (marked (marked_by c) l) w cs (test_call w c a) (call-IsLit l w c a h))

  call-base : (w : Moment F.R) (c : Call F.R) (a : App F.R) → base_of (test_call w c a) ≡ base_of a
  unfolding test_call
  call-base w (activity d) a =
      on_panel-base (told_of (env_of w a) d)
        (record a { modes = ModeTabs.set_running (auto_if d) a.modes })
  call-base w (running on) a = refl
  call-base w sampled a = on_panel-base (refresh (env_of w a)) a
  call-base w (live d u) a = on_panel-base (set_external_live d u) a
  call-base w stats_reset a = refl
  call-base w stats_rest a = refl
  call-base w (stats_active key) a = refl
  call-base w (stat key figure) a = refl
  call-base w visual_reset a = refl
  call-base w visual_land a = refl
  call-base w visual_park a = refl
  call-base w (visual_active on) a = refl
  call-base w (visual_drive drive) a = refl
  call-base w (visual_accent accent) a = refl
  call-base w (visual_phase label icon) a = refl
  call-base w (visual_reading r unit) a = refl
  call-base w (visual_position r) a = refl
  call-base w (visual_progress r) a = refl
  call-base w (announce words) a = refl
  call-base w (notify words) a = refl
  call-base w (opens_run base) a = refl
  call-base w (starts t pacing id) a = refl
  call-base w (aborts t) a = refl
  call-base w (closes_run base id labels) a = refl
  call-base w (saved id) a = refl

  calls-base :
      (w : Moment F.R) (cs : List (Call F.R)) (a : App F.R)
      → base_of (test_calls w cs a) ≡ base_of a
  unfolding test_calls
  calls-base w [] a = refl
  calls-base w (c ∷ cs) a = calls-base w cs (test_call w c a) ∙ call-base w c a

  -- What the controller has said of the link is shown once its calls are taken up.
  pub settle_tests-IsLit :
      (l : Lights) (w : Moment F.R) (ms : List Mark) (a : App F.R)
      → marks a.tests.log ≡ ms
      → IsLit l a
      → IsLit (marked ms l) (settle_tests w a)
  unfolding settle_tests
  settle_tests-IsLit l w ms a e h =
      subst (λ (xs : List Mark). IsLit (marked xs l) (settle_tests w a)) e
        (calls-IsLit l w a.tests.log _ (record { lit = h.lit }))

  pub settle_tests-base :
      (w : Moment F.R) (a : App F.R)
      → base_of (settle_tests w a) ≡ base_of (record a { tests = record a.tests { log = [] } })
  unfolding settle_tests
  settle_tests-base w a = calls-base w a.tests.log _
