-- ===== src/Core/Router/First.antt =====
-- web/src/routing/router.ts: the first route that matches, and an address that none does.
use Prim.Native.String.{String}
use text.Mathlib.Text as Equal
use megapet.Core.Router.{Router}
