-- ===== src/Core/Preferences/Laws.antt =====
-- web/src/core/preferences.ts: a choice is read back as it was last stored.
use Prim.Native.String.{String}
use Prim.Native.String as Text
use text.Mathlib.Text as Equal
use text.Mathlib.TextEquality.{eq_iff}
use text.Mathlib.TextLemmas.{append_cancel_left}
use mathlib.Core.Bool.{false≢true}
use megapet.Common.{
  ◌≡◌, ◌≢◌, refl, sym, ap, ◌∙◌, subst, if◌then◌else◌, if_cases, Bool, false, Option, none, some,
  List, [], ◌∷◌,
}
use megapet.Core.Preferences.{
  gives, Storage, key, or_nothing, or_same, get, set, remove, Change, sets, removes, change,
  change_all,
}

-- The abstract view: a choice is what was last done to its name.
abbrev pub same : String → String → Bool
same a b = Equal.◌==◌ a b

abbrev pub changed : (name : String) → Change → Option String → Option String
changed name (sets other value) before = if same other name then some value else before
changed name (removes other) before = if same other name then none else before

abbrev pub changed_all : (name : String) → List Change → Option String → Option String
changed_all name [] before = before
changed_all name (c ∷ rest) before = changed_all name rest (changed name c before)

module _ ⦃L : Storage⦄ where
  -- A storage that takes what it is given.
  pub record IsOpen : Type 0 where
    pub takes : (k value : String) (s : L.S) → (t : L.S) × (L.set_item k value s ≡ gives t)
    pub drops : (k : String) (s : L.S) → (t : L.S) × (L.remove_item k s ≡ gives t)

  key-inj : (namespace a b : String) → key namespace a ≡ key namespace b → a ≡ b
  key-inj namespace a b h = append_cancel_left (Text.◌++◌ namespace ".") a b h

  set-gives :
      (namespace name value : String) (s t : L.S)
      → L.set_item (key namespace name) value s ≡ gives t
      → set namespace name value s ≡ t
  unfolding set or_same
  set-gives namespace name value s t h = ap (or_same s) h

  remove-gives :
      (namespace name : String) (s t : L.S)
      → L.remove_item (key namespace name) s ≡ gives t
      → remove namespace name s ≡ t
  unfolding remove or_same
  remove-gives namespace name s t h = ap (or_same s) h

  get-set_same :
      (namespace name value : String) (s t : L.S)
      → L.set_item (key namespace name) value s ≡ gives t
      → get namespace name t ≡ some value
  unfolding get or_nothing
  get-set_same namespace name value s t h =
      ap or_nothing (L.get-set (key namespace name) value s t h)

  get-set_apart :
      (namespace name other value : String) (s t : L.S)
      → name ≢ other
      → L.set_item (key namespace other) value s ≡ gives t
      → get namespace name t ≡ get namespace name s
  unfolding get
  get-set_apart namespace name other value s t n h = ap or_nothing (
      L.get-set_other (key namespace other) (key namespace name) value s t
        (λ e. n (key-inj namespace name other e)) h)

  get-remove_same :
      (namespace name : String) (s t : L.S)
      → L.remove_item (key namespace name) s ≡ gives t
      → get namespace name t ≡ none
  unfolding get or_nothing
  get-remove_same namespace name s t h = ap or_nothing (L.get-remove (key namespace name) s t h)

  get-remove_apart :
      (namespace name other : String) (s t : L.S)
      → name ≢ other
      → L.remove_item (key namespace other) s ≡ gives t
      → get namespace name t ≡ get namespace name s
  unfolding get
  get-remove_apart namespace name other s t n h = ap or_nothing (
      L.get-remove_other (key namespace other) (key namespace name) s t
        (λ e. n (key-inj namespace name other e)) h)

  apart : (other name : String) → same other name ≡ false → name ≢ other
  apart other name e q = false≢true (sym e ∙ (eq_iff other name).1 (sym q))

  change-changed :
      (namespace name : String) (c : Change) (s : L.S)
      → IsOpen
      → get namespace name (change namespace c s) ≡ changed name c (get namespace name s)
  unfolding change
  change-changed namespace name (sets other value) s w =
      let (t, h) = w.takes (key namespace other) value s in
      subst
        (λ (u : L.S). get namespace name u ≡ changed name (sets other value) (get namespace name s))
        (sym (set-gives namespace other value s t h))
        (if_cases (λ (x : Option String). get namespace name t ≡ x) (same other name) (some value)
          (get namespace name s)
          (λ e.
            subst (λ (n : String). get namespace n t ≡ some value) ((eq_iff other name).0 e)
              (get-set_same namespace other value s t h))
          λ e. get-set_apart namespace name other value s t (apart other name e) h)
  change-changed namespace name (removes other) s w =
      let (t, h) = w.drops (key namespace other) s in
      subst
        (λ (u : L.S). get namespace name u ≡ changed name (removes other) (get namespace name s))
        (sym (remove-gives namespace other s t h))
        (if_cases (λ (x : Option String). get namespace name t ≡ x) (same other name) none
          (get namespace name s)
          (λ e.
            subst (λ (n : String). get namespace n t ≡ none) ((eq_iff other name).0 e)
              (get-remove_same namespace other s t h))
          λ e. get-remove_apart namespace name other s t (apart other name e) h)

  -- Where the storage takes what it is given, a choice reads back as what was last done to its name:
  -- the value that was stored, or nothing once it was removed, whatever was done to other names.
  pub change_all-get :
      (namespace name : String) (changes : List Change) (s : L.S)
      → IsOpen
      → get namespace name (change_all namespace changes s)
        ≡ changed_all name changes (get namespace name s)
  unfolding change_all
  change_all-get namespace name [] s w = refl
  change_all-get namespace name (c ∷ rest) s w =
      change_all-get namespace name rest (change namespace c s) w
      ∙ ap (changed_all name rest) (change-changed namespace name c s w)
