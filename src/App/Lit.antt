-- ===== src/App/Lit.antt =====
-- web/src/ui/app.ts: the buttons and the tabs follow the calls of the panel and the controller.
use megapet.Common.{
  ◌≡◌, refl, sym, ◌∙◌, subst, Bool, true, false, Option, none, some, List, [], ◌∷◌, ◌++◌, Num,
}
use megapet.Features.ModeTabs.{Mode, auto, manual}
use megapet.Features.ModeTabs as ModeTabs
use megapet.Features.Hero as Hero
use megapet.Features.Hero.{StartButton, start_button_of, paint_start}
use megapet.Features.MonitorPanel.State.{MonitorPanel, Env, Call, running_change}
use megapet.Features.MonitorPanel.State as PanelCall
use megapet.Features.MonitorPanel.Painted.{IsPainted}
use megapet.Features.MonitorPanel.Told.{Status, IsAt, told, told_by}
use megapet.Features.TestController.{TestController}
use megapet.Features.TestController.Marks.{Mark, holds, shows}
use megapet.App.State.{App, Config, Running, hear, hear_all, settle_panel, on_panel, manual_if}
use megapet.Features.TestController.Calls.{Peer}

-- What shows which test runs: the panel's session and hold, the button of the page, and the tabs.
pub record Lights : Type 0 where
  pub session : Bool
  pub hold : Bool
  pub hero_running : Bool
  pub hero_blocked : Bool
  pub tab : Option Mode

abbrev pub status_of : List Bool → Lights → Status
status_of ts l = record { running = l.session; blocked = l.hold; auto_running = l.hold; told = ts }

-- What the calls of the panel change.
abbrev pub tells : List Bool → Lights → Lights
tells [] l = l
tells (on ∷ ts) l = tells ts (record l { hero_blocked = on; tab = manual_if on })

abbrev pub auto_when : Bool → Option Mode
auto_when true = some auto
auto_when false = none

-- What the calls of the controller change.
abbrev pub marked : List Mark → Lights → Lights
marked [] l = l
marked (holds on ∷ ms) l = marked ms (record l { hold = on; tab = auto_when on })
marked (shows on ∷ ms) l = marked ms (record l { hero_running = on })

module _ ⦃F : Num⦄ where
  pub record View : Type 0 where
    pub panel : MonitorPanel F.R
    pub running : Bool
    pub blocked : Bool
    pub button : StartButton
    pub tab : Option Mode

  abbrev pub view_of : App F.R → View
  view_of a = record {
    panel = a.panel;
    running = a.hero.running;
    blocked = a.hero.blocked;
    button = a.hero.start_button;
    tab = a.modes.running;
  }

  pub record Shows (l : Lights) (v : View) : Type 0 where
    pub painted : IsPainted v.panel
    pub at : IsAt (status_of [] l) v.panel
    pub hero_runs : v.running ≡ l.hero_running
    pub hero_stands : v.blocked ≡ l.hero_blocked
    pub hero_painted : v.button ≡ start_button_of v.running v.blocked
    pub tabbed : v.tab ≡ l.tab

  pub record IsLit (l : Lights) (a : App F.R) : Type 0 where
    pub lit : Shows l (view_of a)

  -- What none of the calls changes.
  pub record Base : Type 0 where
    pub tests : TestController F.R
    pub opening : List (Option Peer)
    pub runs : List Running
    pub config : Config

  abbrev pub base_of : App F.R → Base
  base_of a = record { tests = a.tests; opening = a.opening; runs = a.runs; config = a.config }

  hear-base : (c : Call F.R) (a : App F.R) → base_of (hear c a) ≡ base_of a
  unfolding hear
  hear-base (running_change on) a = refl
  hear-base (PanelCall.readings d u) a = refl
  hear-base (PanelCall.notify message) a = refl
  hear-base (PanelCall.announce message) a = refl
  hear-base (PanelCall.announce_exported n) a = refl
  hear-base (PanelCall.download_csv ps t d server) a = refl
  hear-base (PanelCall.runs c) a = refl

  hear_all-base : (cs : List (Call F.R)) (a : App F.R) → base_of (hear_all cs a) ≡ base_of a
  unfolding hear_all
  hear_all-base [] a = refl
  hear_all-base (c ∷ cs) a = hear_all-base cs (hear c a) ∙ hear-base c a

  settle_panel-base : (a : App F.R) → base_of (settle_panel a) ≡ base_of a
  unfolding settle_panel
  settle_panel-base a = hear_all-base a.panel.log _

  -- A call that says nothing of the session lights nothing.
  hear-IsLit :
      (l : Lights) (c : Call F.R) (a : App F.R) → IsLit l a → IsLit (tells (told_by c) l) (hear c a)
  unfolding hear Hero.set_blocked paint_start ModeTabs.set_running
  hear-IsLit l (running_change on) a h = record {
    lit = record {
      painted = h.lit.painted;
      at = record {
        runs = h.lit.at.runs;
        held = h.lit.at.held;
        staged = h.lit.at.staged;
        said = h.lit.at.said;
      };
      hero_runs = h.lit.hero_runs;
      hero_stands = refl;
      hero_painted = refl;
      tabbed = refl;
    };
  }
  hear-IsLit l (PanelCall.readings d u) a h = record { lit = h.lit }
  hear-IsLit l (PanelCall.notify message) a h = record { lit = h.lit }
  hear-IsLit l (PanelCall.announce message) a h = record { lit = h.lit }
  hear-IsLit l (PanelCall.announce_exported n) a h = record { lit = h.lit }
  hear-IsLit l (PanelCall.download_csv ps t d server) a h = record { lit = h.lit }
  hear-IsLit l (PanelCall.runs c) a h = record { lit = h.lit }

  tells-append : (xs ys : List Bool) (l : Lights) → tells (xs ++ ys) l ≡ tells ys (tells xs l)
  tells-append [] ys l = refl
  tells-append (x ∷ xs) ys l = tells-append xs ys _

  hear_all-IsLit :
      (l : Lights) (cs : List (Call F.R)) (a : App F.R)
      → IsLit l a
      → IsLit (tells (told cs) l) (hear_all cs a)
  unfolding hear_all
  hear_all-IsLit l [] a h = h
  hear_all-IsLit l (c ∷ cs) a h =
      subst (λ (k : Lights). IsLit k (hear_all cs (hear c a)))
        (sym (tells-append (told_by c) (told cs) l))
        (hear_all-IsLit (tells (told_by c) l) cs (hear c a) (hear-IsLit l c a h))

  -- What the panel does is shown by the button of the page and the tabs.
  pub on_panel-IsLit :
      (l : Lights) (session hold : Bool) (ts : List Bool) (f : MonitorPanel F.R → MonitorPanel F.R)
      (a : App F.R)
      → IsPainted (f a.panel)
      → IsAt (status_of ts (record l { session = session; hold = hold })) (f a.panel)
      → IsLit l a
      → IsLit (tells ts (record l { session = session; hold = hold })) (on_panel f a)
  unfolding settle_panel
  on_panel-IsLit l session hold ts f a q v h =
      let k = record l { session = session; hold = hold } in
      subst (λ (xs : List Bool). IsLit (tells xs k) (on_panel f a)) v.said
        (hear_all-IsLit k (f a.panel).log _ (record {
          lit = record {
            painted = record { shown = q.shown };
            at = record { runs = v.runs; held = v.held; staged = v.staged; said = refl };
            hero_runs = h.lit.hero_runs;
            hero_stands = h.lit.hero_stands;
            hero_painted = h.lit.hero_painted;
            tabbed = h.lit.tabbed;
          };
        }))

  pub on_panel-base :
      (f : MonitorPanel F.R → MonitorPanel F.R) (a : App F.R) → base_of (on_panel f a) ≡ base_of a
  on_panel-base f a = settle_panel-base (record a { panel = f a.panel })

  -- What neither starts nor ends a session.
  pub record IsSteady (f : MonitorPanel F.R → MonitorPanel F.R) : Type 0 where
    pub paints : (p : MonitorPanel F.R) → IsPainted p → IsPainted (f p)
    pub stays : (s : Status) (p : MonitorPanel F.R) → IsAt s p → IsAt s (f p)

  pub steady-IsLit :
      (l : Lights) (f : MonitorPanel F.R → MonitorPanel F.R) (a : App F.R)
      → IsSteady f
      → IsLit l a
      → IsLit l (on_panel f a)
  steady-IsLit l f a s h =
      on_panel-IsLit l l.session l.hold [] f a (s.paints a.panel h.lit.painted)
        (s.stays (status_of [] l) a.panel h.lit.at) h
