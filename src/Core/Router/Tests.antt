-- ===== src/Core/Router/Tests.antt =====
-- Addresses of a concrete router, and the theorem applied to one.
use Prim.Native.String.{String}
use text.Mathlib.Text as Equal
use megapet.Common.{◌≡◌, refl, if◌then◌else◌, Option, none, some, List, [], ◌∷◌}
use megapet.Core.Router.{
  Route, Router, pushes, replaces, handles, malformed, fresh, add, fallback_route, fallback,
  params_of, corrected, shows, resolve_among, resolve, navigate,
}

routing : Unit {0}
unfolding add fallback params_of corrected shows resolve_among resolve navigate
routing = tt

data Page : Type 0 where
  home manual result : Page

abbrev only : String → String → Option (List String)
only pattern path = if Equal.◌==◌ path pattern then some [] else none

-- What the pattern /r/:id takes, for two addresses.
abbrev of_result : String → Option (List String)
of_result path =
    if Equal.◌==◌ path "/r/ABC"
    then some ("ABC" ∷ [])
    else if Equal.◌==◌ path "/r/%E0"
    then some ("%E0" ∷ [])
    else none

-- A part that is no escaped text is refused.
abbrev decode : String → Option String
decode part = if Equal.◌==◌ part "%E0" then none else some part

abbrev manual_route : Route Page
manual_route = record { matcher = only "/manual"; names = []; handler = manual; correct_to = none }

abbrev result_route : Route Page
result_route = record {
  matcher = of_result;
  names = "id" ∷ [];
  handler = result;
  correct_to = none;
}

abbrev router : String → Router Page
router pathname = record (fresh pathname) {
  routes = result_route ∷ manual_route ∷ fallback_route home "/" ∷ [];
}

shown :
    ((resolve decode "/r/ABC" (router "/r/ABC")).log ≡ handles result (("id", "ABC") ∷ []) ∷ [])
    × ((resolve decode "/graph" (router "/graph")).log ≡ replaces "/" ∷ handles home [] ∷ [])
    × ((navigate decode "/manual" (router "/")).log ≡ pushes "/manual" ∷ handles manual [] ∷ [])
    × ((resolve decode "/r/%E0" (router "/r/%E0")).log ≡ malformed ∷ [])
unfolding routing
shown = (refl, refl, refl, refl)
