-- ===== src/Engine/Series/Tests.antt =====
-- Runs of the series at concrete samples, and the theorems applied to them.
use megapet.Common.{ℕ, ◌≡◌, refl, List, [], ◌∷◌, Option, some, none, arith, max}
use megapet.Common.Sample.{sample_num}
use megapet.Engine.Series.{
  SeriesPoint, TimeSeries, Sample, new, clean, cleaned, raise, average, merge, store, compact, add,
  add_all, clear,
}
use megapet.Engine.Series.Validity.{IsValid, add_all-IsValid}
use megapet.Engine.Series.Range.{InRange, add_all-InRange}

series : Unit {0}
unfolding new clean cleaned raise average merge store compact add add_all clear max
series = tt

abbrev at : ℕ → ℕ → Sample (Option ℕ)
at t v = record { point = record { t = t; down = some v; up = none }; date = 7; now = t }

abbrev fresh : TimeSeries (Option ℕ)
fresh = record {
  points = [];
  interval = 10;
  count = 0;
  began = 5;
  last_write = 0;
  max_down = some 0;
  max_up = some 0;
  capacity = 4;
}

abbrev samples : List (Sample (Option ℕ))
samples = at 0 8 ∷ at 10 2 ∷ at 20 40 ∷ at 30 0 ∷ at 40 6 ∷ []

abbrev four : List (Sample (Option ℕ))
four = at 0 8 ∷ at 10 2 ∷ at 20 40 ∷ at 30 0 ∷ []

abbrev point : ℕ → ℕ → SeriesPoint (Option ℕ)
point t v = record { t = t; down = some v; up = some 0 }

-- Five samples into four places: two averages and the newest, the peak untouched.
five_points : (add_all fresh samples).points ≡ point 0 5 ∷ point 20 20 ∷ point 40 6 ∷ []
unfolding series
five_points = refl

fresh-IsValid : IsValid fresh
fresh-IsValid = record { roomy = omega arith; bounded = omega arith; ordered = tt }

new_tests : (new 3 10 5 ≡ none) × (new 4 10 5 ≡ some fresh)
unfolding series
new_tests = (refl, refl)

abbrev full : TimeSeries (Option ℕ)
full = record {
  points = point 0 8 ∷ point 10 2 ∷ point 20 40 ∷ point 30 0 ∷ [];
  interval = 10;
  count = 4;
  began = 7;
  last_write = 30;
  max_down = some 40;
  max_up = some 0;
  capacity = 4;
}

full-IsValid : IsValid full
full-IsValid = record { roomy = omega arith; bounded = omega arith; ordered = omega arith }

add_all-IsValid_example : IsValid (add_all fresh samples)
add_all-IsValid_example = add_all-IsValid fresh samples fresh-IsValid (omega arith)

add_all-InRange_example : InRange (add_all fresh samples)
unfolding series
add_all-InRange_example =
    add_all-InRange (some 50) fresh samples refl
      ((refl, refl, (refl, refl, (refl, refl, (refl, refl, (refl, refl, tt)))))) (refl, refl)
      (record { down_peak = refl; up_peak = refl; inside = tt })
