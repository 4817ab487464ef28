-- ===== src/Features/Hero.antt =====
-- web/src/ui/features/hero.ts: the primary button of a test, and what stands in the page's middle.
--
-- The visual that is mounted has a number, and a visual that is destroyed is logged.
use Prim.Native.String.{String}
use megapet.Common.{ℕ, ◌+◌, Bool, true, false, if◌then◌else◌, List, [], ◌∷◌, ◌++◌}

pub data VisualKind : Type 0 where
  lift dial : VisualKind

abbrev pub same_kind : VisualKind → VisualKind → Bool
same_kind lift lift = true
same_kind lift dial = false
same_kind dial lift = false
same_kind dial dial = true

pub data Call : Type 0 where
  prefers : VisualKind → Call
  destroys : ℕ → Call
  mounts : ℕ → VisualKind → Call

pub record StartButton : Type 0 where
  pub disabled : Bool
  pub icon : String
  pub label : String
  pub title : String

pub record Hero : Type 0 where
  pub kind : VisualKind
  pub mounted : ℕ
  pub running : Bool
  -- `blocked !== null`
  pub blocked : Bool
  pub start_button : StartButton
  -- manual mode's controls stand where the visual does
  pub manual : Bool
  pub log : List Call

unfoldable pub start_button_of : (running blocked : Bool) → StartButton
start_button_of true blocked = record {
  disabled = false;
  icon = "stop";
  label = "Stop";
  title = "";
}
start_button_of false true = record {
  disabled = true;
  icon = "speed";
  label = "Manual mode running";
  title = "Stop manual mode first — both would be measuring the same link.";
}
start_button_of false false = record {
  disabled = false;
  icon = "speed";
  label = "Start test";
  title = "";
}

unfoldable pub paint_start : Hero → Hero
paint_start h = record h { start_button = start_button_of h.running h.blocked }

unfoldable pub new : VisualKind → Hero
new kind = record {
  kind = kind;
  mounted = 0;
  running = false;
  blocked = false;
  start_button = start_button_of false false;
  manual = false;
  log = mounts 0 kind ∷ [];
}

unfoldable pub set_manual : Bool → Hero → Hero
set_manual controls h = record h { manual = controls }

unfoldable pub set_visual : VisualKind → Hero → Hero
set_visual kind h = if same_kind kind h.kind then h else record h {
  kind = kind;
  mounted = h.mounted + 1;
  log = h.log ++ prefers kind ∷ destroys h.mounted ∷ mounts (h.mounted + 1) kind ∷ [];
}

unfoldable pub set_running : Bool → Hero → Hero
set_running running h = paint_start (record h { running = running })

unfoldable pub set_blocked : Bool → Hero → Hero
set_blocked reason h = paint_start (record h { blocked = reason })
