-- ===== src/Features/GraphModal.antt =====
-- web/src/ui/features/graph-modal.ts: the dialog that the graph is shown in.
--
-- It holds the panel that it was given, or nothing.
use megapet.Common.{Bool, true, false}

pub record GraphModal : Type 0 where
  pub is_open : Bool
  pub content : Bool
  -- the page behind does not scroll
  pub page_held : Bool

abbrev pub new : GraphModal
new = record { is_open = false; content = false; page_held = false }

unfoldable pub show : GraphModal → GraphModal
show g = record { is_open = true; content = true; page_held = true }

-- The Boolean says whether there is a panel to put back.
unfoldable pub hide : GraphModal → Bool × GraphModal
hide g = (g.content, record { is_open = false; content = false; page_held = false })
