-- ===== src/App/Places.antt =====
-- web/src/ui/app.ts: moving about the page changes nothing of who holds the link.
use Prim.Native.String.{String}
use megapet.Common.{
  ◌≡◌, sym, ap, ◌∙◌, if◌then◌else◌, if_cases, Bool, true, false, not, ◌&&◌, ◌||◌, List, Num,
}
use mathlib.Core.Bool.{false≢true}
use megapet.Engine.Monitor as Engine
use megapet.Features.ModeTabs as ModeTabs
use megapet.Features.ModeTabs.{Mode, auto, manual, same_mode}
use megapet.Features.Hero as Hero
use megapet.Features.GraphModal as GraphModal
use megapet.Features.MonitorPanel.State.{MonitorPanel, Env}
use megapet.Features.MonitorPanel.Drawing.{refresh}
use megapet.Features.MonitorPanel.{
  toggle_direction, flip, set_mode, set_compact, set_show_graph, set_title,
}
use megapet.Features.MonitorPanel.Actions as Actions
use megapet.Features.MonitorPanel.Actions.{Action, act, is_outside}
use megapet.Features.MonitorPanel.Repainted.{set_mode-IsPainted}
use megapet.Features.MonitorPanel.Shown.{act-IsPainted}
use megapet.Features.MonitorPanel.Told.{IsAt}
use megapet.Features.MonitorPanel.Steady.{at_set_mode, at_set_compact, at_set_show_graph, at_flip}
use megapet.App.State.{
  App, Moment, PagePath, root, manual_page, saved_result, other_path, env_of, is_running, run_tests,
  page, PageCall,
}
use megapet.App.Lit.{IsSteady}
use megapet.App.Marked.{refresh-IsSteady}
use megapet.App.{
  put_manual, place_panel, show_home, show_result, resolve, navigate, open_graph, close_graph,
  toggle_graph, apply_mode, commit_mode, path_for, same_path,
}
use megapet.App.Situation.{Situation, IsIn, steady-IsIn}

module _ ⦃F : Num⦄ where
  both :
      (f g : MonitorPanel F.R → MonitorPanel F.R)
      → IsSteady f
      → IsSteady g
      → IsSteady (λ p. g (f p))
  both f g s t = record {
    paints = λ p h. t.paints (f p) (s.paints p h);
    stays = λ k p h. t.stays k (f p) (s.stays k p h);
  }

  set_title-IsSteady : (text : String) → IsSteady (set_title text)
  set_title-IsSteady text = record {
    paints = λ p h. record { shown = h.shown };
    stays = λ s p h. record { runs = h.runs; held = h.held; staged = h.staged; said = h.said };
  }

  set_mode-IsSteady : (env : Env F.R) (m : Mode) → IsSteady (set_mode env m)
  set_mode-IsSteady env m = record {
    paints = set_mode-IsPainted env m;
    stays = λ s p. at_set_mode s env m p;
  }

  set_compact-IsSteady : (env : Env F.R) (c : Bool) → IsSteady (set_compact env c)
  unfolding act
  set_compact-IsSteady env c = record {
    paints = act-IsPainted env (Actions.compacts c);
    stays = λ s p. at_set_compact s env c p;
  }

  set_show_graph-IsSteady : (env : Env F.R) (g : Bool) → IsSteady (set_show_graph env g)
  unfolding act
  set_show_graph-IsSteady env g = record {
    paints = act-IsPainted env (Actions.shows_graph g);
    stays = λ s p. at_set_show_graph s env g p;
  }

  pub toggle_direction-IsSteady :
      (env : Env F.R) (k : Engine.Key) → IsSteady (λ p. (toggle_direction env k p).1)
  unfolding act toggle_direction
  toggle_direction-IsSteady env k = record {
    paints = act-IsPainted env (Actions.keys_direction k);
    stays = λ s p h.
        if_cases (λ (q : Bool × MonitorPanel F.R). IsAt s q.1) (p.blocked || same_mode p.mode auto)
          (false, p) (true, flip env k p) (λ _. h) λ _. at_flip s env k p h;
  }

  put_manual-IsIn : (x : Situation) (on : Bool) (a : App F.R) → IsIn x a → IsIn x (put_manual on a)
  unfolding put_manual Hero.set_manual
  put_manual-IsIn x on a h = record { lit = record { lit = h.lit.lit }; based = h.based }

  pub page-IsIn :
      (x : Situation) (cs : List (PageCall F.R)) (a : App F.R) → IsIn x a → IsIn x (page cs a)
  page-IsIn x cs a h = record { lit = record { lit = h.lit.lit }; based = h.based }

  placed-IsSteady :
      (env : Env F.R)
      → IsSteady (λ p. set_show_graph env false (set_compact env true (set_title "Manual mode" p)))
  placed-IsSteady env =
      both (set_title "Manual mode") (λ p. set_show_graph env false (set_compact env true p))
        (set_title-IsSteady "Manual mode")
        (both (set_compact env true) (set_show_graph env false) (set_compact-IsSteady env true)
          (set_show_graph-IsSteady env false))

  place_panel-IsIn :
      (x : Situation) (w : Moment F.R) (m : Mode) (a : App F.R)
      → IsIn x a
      → IsIn x (place_panel w m a)
  unfolding place_panel
  place_panel-IsIn x w auto a h =
      if_cases (IsIn x) a.graph.is_open a _ (λ _. h) λ _. put_manual-IsIn x false a h
  place_panel-IsIn x w manual a h =
      if_cases (IsIn x) a.graph.is_open a _ (λ _. h)
        λ _. put_manual-IsIn x true _ (steady-IsIn x _ a (placed-IsSteady (env_of w a)) h)

  unforced :
      (x : Situation) (a : App F.R) (stands : Bool)
      → IsIn x a
      → (a.config.auto_start && stands) ≡ false
  unforced x a stands h = ap (λ (b : Bool). b && stands) h.based.unforced

  -- Without `auto_start`, a home page starts nothing.
  listed-IsIn :
      (x : Situation) (w : Moment F.R) (a : App F.R)
      → IsIn x a
      → IsIn x (if a.config.auto_start && not (is_running a.tests) then run_tests w a else a)
  listed-IsIn x w a h =
      if_cases (IsIn x) (a.config.auto_start && not (is_running a.tests)) _ a
        (λ e. absurd (false≢true (sym (unforced x a (not (is_running a.tests)) h) ∙ e))) λ _. h

  show_home-IsIn :
      (x : Situation) (w : Moment F.R) (m : Mode) (a : App F.R)
      → IsIn x a
      → IsIn x (show_home w m a)
  unfolding show_home ModeTabs.set_mode
  show_home-IsIn x w m a h = listed-IsIn x w _ (
      page-IsIn x _ _ (
        place_panel-IsIn x w m _ (
          steady-IsIn x (set_mode (env_of w a) m)
            (record a {
              mode = m;
              result_shown = false;
              modes = ModeTabs.set_mode m a.modes;
              tabs_shown = true;
            })
            (set_mode-IsSteady (env_of w a) m)
            (record { lit = record { lit = h.lit.lit }; based = h.based }))))

  pub resolve-IsIn :
      (x : Situation) (w : Moment F.R) (path : PagePath) (a : App F.R)
      → IsIn x a
      → IsIn x (resolve w path a)
  unfolding resolve show_result
  resolve-IsIn x w root a h = show_home-IsIn x w auto a h
  resolve-IsIn x w manual_page a h = show_home-IsIn x w manual a h
  resolve-IsIn x w (saved_result id) a h = record {
    lit = record { lit = h.lit.lit };
    based = h.based;
  }
  resolve-IsIn x w (other_path name) a h = show_home-IsIn x w auto a h

  pub navigate-IsIn :
      (x : Situation) (w : Moment F.R) (path : PagePath) (a : App F.R)
      → IsIn x a
      → IsIn x (navigate w path a)
  unfolding navigate
  navigate-IsIn x w path a h =
      if_cases (IsIn x) (same_path a.path path) a _ (λ _. h)
        λ _.
          resolve-IsIn x w path (record a { path = path })
            (record { lit = record { lit = h.lit.lit }; based = h.based })

  open_graph-IsIn :
      (x : Situation) (w : Moment F.R) (a : App F.R) → IsIn x a → IsIn x (open_graph w a)
  unfolding open_graph
  open_graph-IsIn x w a h =
      let env = env_of w a in
      let opened = put_manual-IsIn x false _ (
        steady-IsIn x _ a
          (both (set_title "Graph")
            (λ p. refresh env (set_compact env false (set_show_graph env true p)))
            (set_title-IsSteady "Graph")
            (both (λ p. set_compact env false (set_show_graph env true p)) (refresh env)
              (both (set_show_graph env true) (set_compact env false)
                (set_show_graph-IsSteady env true) (set_compact-IsSteady env false))
              (refresh-IsSteady env)))
          h) in
      record { lit = record { lit = opened.lit.lit }; based = opened.based }

  close_graph-IsIn :
      (x : Situation) (w : Moment F.R) (a : App F.R) → IsIn x a → IsIn x (close_graph w a)
  unfolding close_graph
  close_graph-IsIn x w a h =
      let closed : App F.R = record a {
        graph = (GraphModal.hide a.graph).1;
        graph_active = false;
      } in
      let is_in : IsIn x closed = record { lit = record { lit = h.lit.lit }; based = h.based } in
      if_cases (IsIn x) ((GraphModal.hide a.graph).0 && same_mode a.mode manual) _
        (put_manual false closed)
        (λ _. put_manual-IsIn x true _ (
          steady-IsIn x _ closed
            (both (set_title "Manual mode") (set_show_graph (env_of w a) false)
              (set_title-IsSteady "Manual mode") (set_show_graph-IsSteady (env_of w a) false))
            is_in))
        λ _. put_manual-IsIn x false closed is_in

  pub toggle_graph-IsIn :
      (x : Situation) (w : Moment F.R) (a : App F.R) → IsIn x a → IsIn x (toggle_graph w a)
  unfolding toggle_graph
  toggle_graph-IsIn x w a h =
      if_cases (IsIn x) a.graph.is_open _ _ (λ _. close_graph-IsIn x w a h)
        λ _. open_graph-IsIn x w a h

  apply_mode-IsIn :
      (x : Situation) (w : Moment F.R) (m : Mode) (a : App F.R)
      → IsIn x a
      → IsIn x (apply_mode w m a)
  unfolding apply_mode ModeTabs.set_mode
  apply_mode-IsIn x w m a h =
      let env = env_of w a in
      let chosen : App F.R = record a { mode = m; modes = ModeTabs.set_mode m a.modes } in
      let is_in : IsIn x chosen = record { lit = record { lit = h.lit.lit }; based = h.based } in
      if_cases (IsIn x) a.graph.is_open _ chosen
        (λ _.
          steady-IsIn x _ chosen
            (both (set_mode env m) (refresh env) (set_mode-IsSteady env m) (refresh-IsSteady env))
            is_in)
        λ _. is_in

  pub commit_mode-IsIn :
      (x : Situation) (w : Moment F.R) (m : Mode) (a : App F.R)
      → IsIn x a
      → IsIn x (commit_mode w m a)
  unfolding commit_mode
  commit_mode-IsIn x w m a h =
      navigate-IsIn x w (path_for m) (apply_mode w m a) (apply_mode-IsIn x w m a h)
