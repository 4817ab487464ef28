-- ===== src/Features/ModeTabs.antt =====
-- web/src/ui/features/mode-tabs.ts: the switch between the two kinds of test.
--
-- A tab is shown as selected and as live by what the switch holds, so `paint` is `tab`.
use Prim.Native.String.{String}
use Prim.Native.String as Text
use megapet.Common.{Bool, true, false, if◌then◌else◌, Option, none, some}

pub data Mode : Type 0 where
  auto manual : Mode

abbrev pub same_mode : Mode → Mode → Bool
same_mode auto auto = true
same_mode auto manual = false
same_mode manual auto = false
same_mode manual manual = true

pub record ModeTabs : Type 0 where
  pub current : Mode
  pub running : Option Mode

pub record Tab : Type 0 where
  pub selected : Bool
  pub live : Bool
  pub name : String

abbrev pub new : ModeTabs
new = record { current = auto; running = none }

unfoldable pub set_mode : Mode → ModeTabs → ModeTabs
set_mode mode t = record t { current = mode }

unfoldable pub set_running : Option Mode → ModeTabs → ModeTabs
set_running mode t = record t { running = mode }

abbrev pub label : Mode → String
label auto = "Auto"
label manual = "Manual"

abbrev pub is_running : Mode → Option Mode → Bool
is_running mode none = false
is_running mode (some other) = same_mode mode other

-- How `paint` shows the tab of a mode.
unfoldable pub tab : Mode → ModeTabs → Tab
tab mode t = record {
  selected = same_mode mode t.current;
  live = is_running mode t.running;
  name = if is_running mode t.running then Text.◌++◌ (label mode) " — running" else label mode;
}
