-- ===== src/Visuals/Viewport/Tests.antt =====
-- Runs of the viewport at concrete changes, and the theorems applied to them.
use megapet.Common.{ℕ, ◌≡◌, refl, [], ◌∷◌, Option, some, true, false, max, min}
use megapet.Common.Sample.{sample_num}
use megapet.Visuals.Viewport.{
  GraphViewport, zooms, clamp_span, new, window, set_focus, zoom, pan, fit, reset, change,
}
use megapet.Visuals.Viewport.Focus.{changes, set_focus_jumps}

viewport : Unit {0}
unfolding clamp_span new window set_focus zoom pan fit reset change changes max min
viewport = tt

abbrev fitted : GraphViewport (Option ℕ)
fitted = record { span = some 60000; anchor = some 0; following = false }

fits_all : fit (some 0) (some 60000) new ≡ fitted
unfolding viewport
fits_all = refl

zooms_out : (zoom (some 4) (some 100000) (some 0) new).span ≡ some 100000
unfolding viewport
zooms_out = refl

set_focus_jumps_example :
    ((changes (zooms (some 2) (some 600000) (some 0) ∷ []) new).following ≡ true)
    × ((window
          (some 600000)
          (set_focus false (changes (zooms (some 2) (some 600000) (some 0) ∷ []) new))).from_ms
        ≡ some 0)
set_focus_jumps_example =
    set_focus_jumps (some 600000) (zooms (some 2) (some 600000) (some 0) ∷ []) (refl, tt)
