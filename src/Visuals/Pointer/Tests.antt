-- ===== src/Visuals/Pointer/Tests.antt =====
-- Runs of the pointer at concrete readings, and the theorem applied to them.
use megapet.Common.{ℕ, ◌≡◌, refl, [], ◌∷◌, Option, some, none, max, min}
use megapet.Common.Sample.{sample_num}
use megapet.Visuals.Scale.{to_fraction, sweep_ms}
use megapet.Visuals.Pointer.{Pointer, new, aim, asked, turned, begin_fall, falling}
use megapet.Visuals.Pointer.Sweep.{frame, reading, run, aim-frames}

pointer : Unit {0}
unfolding new aim asked turned begin_fall falling to_fraction sweep_ms max min
pointer = tt

-- A pointer at the end of its scale.
abbrev raised : Pointer (Option ℕ)
raised = record new { fraction = some 1; aim_fraction = some 1; target_mbps = some 5000 }

falls : (aim (some 0) raised).fall_from ≡ some 1
unfolding pointer
falls = refl

aim-frames_example :
    run
      (frame (some 16) ∷ reading (some 0) ∷ frame (some 16) ∷ reading none ∷ [])
      (aim (some 0) raised)
    ≡ run (frame (some 16) ∷ frame (some 16) ∷ []) (aim (some 0) raised)
aim-frames_example =
    aim-frames (some 0) (frame (some 16) ∷ reading (some 0) ∷ frame (some 16) ∷ reading none ∷ [])
      raised refl refl
