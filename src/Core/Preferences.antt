-- ===== src/Core/Preferences.antt =====
-- web/src/core/preferences.ts: the stored choices, over a storage that may fail.
--
-- `localStorage` is the browser's: the storage is a parameter, with what is documented of it. A call
-- that throws is a value.
pub mod Laws
mod Tests
use Prim.Native.String.{String}
use Prim.Native.String as Text
use text.Mathlib.Text as Equal
use megapet.Common.{
  ◌≡◌, ◌≢◌, if◌then◌else◌, Bool, true, false, ◌||◌, Option, none, some, List, [], ◌∷◌, or_else,
}

-- What a call of the storage comes to.
pub data Attempt (A : Type 0) : Type 0 where
  gives : A → Attempt A
  fails : Attempt A

pub record Storage : Type 1 where
  pub S : Type 0
  pub get_item : String → S → Attempt (Option String)
  pub set_item : String → String → S → Attempt S
  pub remove_item : String → S → Attempt S
  pub get-set :
      (key value : String) (s t : S)
      → set_item key value s ≡ gives t
      → get_item key t ≡ gives (some value)
  pub get-set_other :
      (key other value : String) (s t : S)
      → other ≢ key
      → set_item key value s ≡ gives t
      → get_item other t ≡ get_item other s
  pub get-remove_other :
      (key other : String) (s t : S)
      → other ≢ key
      → remove_item key s ≡ gives t
      → get_item other t ≡ get_item other s
  pub get-remove :
      (key : String) (s t : S) → remove_item key s ≡ gives t → get_item key t ≡ gives none

module _ ⦃L : Storage⦄ where
  abbrev pub key : (namespace name : String) → String
  key namespace name = Text.◌++◌ (Text.◌++◌ namespace ".") name

  -- `catch { return null; }`
  unfoldable pub or_nothing : Attempt (Option String) → Option String
  or_nothing (gives v) = v
  or_nothing fails = none

  -- `catch {}`: the storage is as it was.
  unfoldable pub or_same : L.S → Attempt L.S → L.S
  or_same s (gives t) = t
  or_same s fails = s

  unfoldable pub get : (namespace name : String) → L.S → Option String
  get namespace name s = or_nothing (L.get_item (key namespace name) s)

  unfoldable pub set : (namespace name value : String) → L.S → L.S
  set namespace name value s = or_same s (L.set_item (key namespace name) value s)

  -- `allowed.includes(value)`
  unfoldable pub includes : List String → String → Bool
  includes [] value = false
  includes (a ∷ rest) value = Equal.◌==◌ a value || includes rest value

  unfoldable pub get_one_of :
      (namespace name : String) → List String → (fallback : String) → L.S → String
  get_one_of namespace name allowed fallback s = elim (get namespace name s) [
    | none ↦ fallback
    | some stored ↦ if includes allowed stored then stored else fallback
  ]

  unfoldable pub remove : (namespace name : String) → L.S → L.S
  remove namespace name s = or_same s (L.remove_item (key namespace name) s)

-- What the client does with its choices.
pub data Change : Type 0 where
  sets : (name value : String) → Change
  removes : (name : String) → Change

module _ ⦃L : Storage⦄ where
  unfoldable pub change : (namespace : String) → Change → L.S → L.S
  change namespace (sets name value) s = set namespace name value s
  change namespace (removes name) s = remove namespace name s

  unfoldable pub change_all : (namespace : String) → List Change → L.S → L.S
  change_all namespace [] s = s
  change_all namespace (c ∷ rest) s = change_all namespace rest (change namespace c s)
