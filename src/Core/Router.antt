-- ===== src/Core/Router.antt =====
-- web/src/routing/router.ts: which page an address shows.
--
-- The browser's history is the address, with the steps and the corrections made of it. The matcher of
-- a route is a regular expression and decoding a part of an address is the browser's: both are
-- parameters, a match gives its groups, and decoding may throw.
pub mod First
mod Tests
use Prim.Native.String.{String}
use text.Mathlib.Text as Equal
use megapet.Common.{if◌then◌else◌, Bool, true, false, not, Option, none, some, List, [], ◌∷◌, ◌++◌}

-- A route, with its handler as the page that it shows.
pub record Route (P : Type 0) : Type 0 where
  pub matcher : String → Option (List String)
  pub names : List String
  pub handler : P
  pub correct_to : Option String

pub data Call (P : Type 0) : Type 0 where
  pushes replaces : String → Call P
  handles : P → List (String × String) → Call P
  listens ignores : Call P
  -- `decodeURIComponent` threw
  malformed : Call P

pub record Router (P : Type 0) : Type 0 where
  pub routes : List (Route P)
  pub started : Bool
  pub pathname : String
  pub log : List (Call P)

-- `decodeURIComponent(match[index + 1] ?? '')` for each name.
unfoldable pub params_of :
    (String → Option String) → (names groups : List String) → Option (List (String × String))
params_of decode [] groups = some []
params_of decode (name ∷ names) [] = elim (decode "") [
  | none ↦ none
  | some value ↦ elim (params_of decode names []) [
    | none ↦ none
    | some rest ↦ some ((name, value) ∷ rest)
  ]
]
params_of decode (name ∷ names) (group ∷ groups) = elim (decode group) [
  | none ↦ none
  | some value ↦ elim (params_of decode names groups) [
    | none ↦ none
    | some rest ↦ some ((name, value) ∷ rest)
  ]
]

module _ {P : Type 0} where
  abbrev pub calls : List (Call P) → Router P → Router P
  calls cs m = record m { log = m.log ++ cs }

  abbrev pub fresh : String → Router P
  fresh pathname = record { routes = []; started = false; pathname = pathname; log = [] }

  unfoldable pub add : Route P → Router P → Router P
  add r m = record m { routes = m.routes ++ r ∷ [] }

  -- `fallback`: a route that matches every address.
  abbrev pub fallback_route : P → (correct_to : String) → Route P
  fallback_route handler correct_to = record {
    matcher = λ path. some [];
    names = [];
    handler = handler;
    correct_to = some correct_to;
  }

  unfoldable pub fallback : P → (correct_to : String) → Router P → Router P
  fallback handler correct_to m = add (fallback_route handler correct_to) m

  module _ (decode : String → Option String) where
    unfoldable pub corrected : Route P → String → Router P → Router P
    corrected r path m = elim r.correct_to [
      | none ↦ m
      | some to ↦
          if Equal.◌==◌ path to then m else calls (replaces to ∷ []) (record m { pathname = to })
    ]

    unfoldable pub shows : Route P → List String → String → Router P → Router P
    shows r groups path m = elim (params_of decode r.names groups) [
      | none ↦ calls (malformed ∷ []) m
      | some params ↦ calls (handles r.handler params ∷ []) (corrected r path m)
    ]

    unfoldable pub resolve_among : List (Route P) → String → Router P → Router P
    resolve_among [] path m = m
    resolve_among (r ∷ rest) path m = elim (r.matcher path) [
      | none ↦ resolve_among rest path m
      | some groups ↦ shows r groups path m
    ]

    unfoldable pub resolve : String → Router P → Router P
    resolve path m = resolve_among m.routes path m

    unfoldable pub start : Router P → Router P
    start m =
        if m.started
        then m
        else resolve m.pathname (calls (listens ∷ []) (record m { started = true }))

    unfoldable pub navigate : String → Router P → Router P
    navigate path m =
        if Equal.◌==◌ m.pathname path
        then m
        else resolve path (calls (pushes path ∷ []) (record m { pathname = path }))

    unfoldable pub destroy : Router P → Router P
    destroy m = calls (ignores ∷ []) (record m { started = false })
