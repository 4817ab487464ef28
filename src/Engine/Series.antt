-- ===== src/Engine/Series.antt =====
-- web/src/engine/series.ts: the bounded history behind the monitor's graph.
--
-- `TimeSeries` is a record, and a method takes it and returns the new one. Times are whole
-- milliseconds, readings are numbers of the language. What `new Date()` and `performance.now()`
-- return is an argument of the method that reads it.
pub mod Compact
pub mod Validity
pub mod Peaks
pub mod Range
pub mod Span
mod Tests
use megapet.Common.{
  ℕ, zero, suc, ◌+◌, ◌*◌, ltb, if◌then◌else◌, Bool, true, false, Option, none, some, List, [], ◌∷◌,
  ◌++◌, length, last?, Num, max, lt,
}

pub record SeriesPoint (R : Type 0) : Type 0 where
  pub t : ℕ
  pub down : R
  pub up : R

pub record SeriesStats (R : Type 0) : Type 0 where
  pub samples : ℕ
  pub peak_down : R
  pub peak_up : R

pub record TimeSeries (R : Type 0) : Type 0 where
  pub points : List (SeriesPoint R)
  pub interval : ℕ
  pub count : ℕ
  pub began : ℕ
  pub last_write : ℕ
  pub max_down : R
  pub max_up : R
  pub capacity : ℕ

abbrev pub default_capacity : ℕ
default_capacity = 600

module _ {R : Type 0} where
  abbrev pub size : TimeSeries R → ℕ
  size s = length s.points

  abbrev pub first : TimeSeries R → Option (SeriesPoint R)
  first s = elim s.points [ [] ↦ none | p ∷ ps ↦ some p ]

  abbrev pub last : TimeSeries R → Option (SeriesPoint R)
  last s = last? s.points

  abbrev pub stats : TimeSeries R → SeriesStats R
  stats s = record { samples = s.count; peak_down = s.max_down; peak_up = s.max_up }

module _ ⦃F : Num⦄ where
  -- `none` is the `RangeError` of the constructor.
  unfoldable pub new : (capacity interval_ms date : ℕ) → Option (TimeSeries F.R)
  new capacity interval_ms date =
      if ltb capacity 4
      then none
      else some (record {
        points = [];
        interval = interval_ms;
        count = 0;
        began = date;
        last_write = 0;
        max_down = F.of_ℕ 0;
        max_up = F.of_ℕ 0;
        capacity = capacity;
      })

  -- A reading that is not finite, or is negative, counts as zero.
  unfoldable pub clean : F.R → F.R
  clean x = if F.is_finite x then max (F.of_ℕ 0) x else F.of_ℕ 0

  unfoldable pub average : SeriesPoint F.R → SeriesPoint F.R → SeriesPoint F.R
  average a b = record {
    t = a.t;
    down = F.div (F.add a.down b.down) (F.of_ℕ 2);
    up = F.div (F.add a.up b.up) (F.of_ℕ 2);
  }

  -- The loop of `compact`: adjacent pairs averaged, an odd trailing point carried over.
  unfoldable pub merge : List (SeriesPoint F.R) → List (SeriesPoint F.R)
  merge [] = []
  merge (a ∷ []) = a ∷ []
  merge (a ∷ b ∷ rest) = average a b ∷ merge rest

  unfoldable pub compact : TimeSeries F.R → TimeSeries F.R
  compact s = record s { points = merge s.points; interval = s.interval * 2 }

  unfoldable pub cleaned : SeriesPoint F.R → SeriesPoint F.R
  cleaned p = record { t = p.t; down = clean p.down; up = clean p.up }

  -- `if (x > peak) peak = x`
  unfoldable pub raise : F.R → F.R → F.R
  raise peak x = if lt peak x then x else peak

  -- `add` up to its last line: the sample is stored and the accumulators are brought up to date.
  unfoldable pub store : SeriesPoint F.R → (date now : ℕ) → TimeSeries F.R → TimeSeries F.R
  store p date now s = record s {
    began = elim s.points [ [] ↦ date | _ ∷ _ ↦ s.began ];
    points = s.points ++ cleaned p ∷ [];
    count = s.count + 1;
    last_write = now;
    max_down = raise s.max_down (clean p.down);
    max_up = raise s.max_up (clean p.up);
  }

  unfoldable pub add : SeriesPoint F.R → (date now : ℕ) → TimeSeries F.R → TimeSeries F.R
  add p date now s =
      let stored = store p date now s in
      if ltb stored.capacity (length stored.points) then compact stored else stored

  unfoldable pub clear : TimeSeries F.R → TimeSeries F.R
  clear s = record s {
    points = [];
    count = 0;
    last_write = 0;
    max_down = F.of_ℕ 0;
    max_up = F.of_ℕ 0;
  }

-- One call of `add`: the sample with the two clocks that it reads.
pub record Sample (R : Type 0) : Type 0 where
  pub point : SeriesPoint R
  pub date : ℕ
  pub now : ℕ

module _ ⦃F : Num⦄ where
  -- A session of calls of `add`.
  unfoldable pub add_all : TimeSeries F.R → List (Sample F.R) → TimeSeries F.R
  add_all s [] = s
  add_all s (x ∷ xs) = add_all (add x.point x.date x.now s) xs
