-- ===== src/Core/Preferences/Tests.antt =====
-- Choices in a concrete storage, and the theorem applied to them.
use Prim.Native.String.{String}
use text.Mathlib.Text as Equal
use text.Mathlib.TextEquality.{eq_iff}
use megapet.Common.{
  ◌≡◌, ◌≢◌, refl, sym, ap, ◌∙◌, if◌then◌else◌, if_cases, Option, none, some, [], ◌∷◌,
}
use megapet.Core.Preferences.{
  Attempt, gives, fails, Storage, get, set, get_one_of, includes, remove, sets, removes, change,
  change_all, or_nothing, or_same,
}
use megapet.Core.Preferences.Laws.{IsOpen, change_all-get}

choices : Unit {0}
unfolding get set get_one_of includes remove change change_all or_nothing or_same
choices = tt

-- A map from keys to values.
abbrev put : String → Option String → (String → Option String) → String → Option String
put key value s k = if Equal.◌==◌ k key then value else s k

put-same :
    (key : String) (value : Option String) (s : String → Option String)
    → put key value s key ≡ value
put-same key value s = ap (λ b. if b then value else s key) ((eq_iff key key).1 refl)

put-other :
    (key other : String) (value : Option String) (s : String → Option String)
    → other ≢ key
    → put key value s other ≡ s other
put-other key other value s n =
    if_cases (λ (x : Option String). x ≡ s other) (Equal.◌==◌ other key) value (s other)
      (λ e. absurd (n ((eq_iff other key).0 e))) λ _. refl

abbrev taken : (String → Option String) → Attempt (String → Option String) → String → Option String
taken s (gives t) = t
taken s fails = s

put-read_same :
    (key : String) (value : Option String) (s t : String → Option String)
    → Attempt.gives (put key value s) ≡ gives t
    → Attempt.gives (t key) ≡ gives value
put-read_same key value s t h =
    ap (λ (u : String → Option String). Attempt.gives (u key)) (sym (ap (taken s) h))
    ∙ ap gives (put-same key value s)

put-read_other :
    (key other : String) (value : Option String) (s t : String → Option String)
    → other ≢ key
    → Attempt.gives (put key value s) ≡ gives t
    → Attempt.gives (t other) ≡ gives (s other)
put-read_other key other value s t n h =
    ap (λ (u : String → Option String). Attempt.gives (u other)) (sym (ap (taken s) h))
    ∙ ap gives (put-other key other value s n)

instance abbrev sample_storage : Storage
sample_storage = record {
  S = String → Option String;
  get_item = λ key s. gives (s key);
  set_item = λ key value s. gives (put key (some value) s);
  remove_item = λ key s. gives (put key none s);
  get-set = λ key value s t h. put-read_same key (some value) s t h;
  get-set_other = λ key other value s t n h. put-read_other key other (some value) s t n h;
  get-remove_other = λ key other s t n h. put-read_other key other none s t n h;
  get-remove = λ key s t h. put-read_same key none s t h;
}

abbrev empty : String → Option String
empty key = none

sample-IsOpen : IsOpen
sample-IsOpen = record {
  takes = λ key value s. (put key (some value) s, refl);
  drops = λ key s. (put key none s, refl);
}

fallen_back :
    (get_one_of "megapet" "mode"
        ("auto" ∷ "manual" ∷ [])
        "auto"
        (set "megapet" "mode" "manual" empty)
      ≡ "manual")
    × (get_one_of "megapet" "mode"
          ("auto" ∷ "manual" ∷ [])
          "auto"
          (set "megapet" "mode" "neither" empty)
        ≡ "auto")
unfolding choices
fallen_back = (refl, refl)

change_all-get_example :
    get "megapet" "mode" (
      change_all "megapet"
        (sets "mode" "manual" ∷ sets "theme" "dark" ∷ removes "theme" ∷ [])
        empty)
    ≡ some "manual"
change_all-get_example =
    change_all-get "megapet" "mode"
      (sets "mode" "manual" ∷ sets "theme" "dark" ∷ removes "theme" ∷ []) empty sample-IsOpen
