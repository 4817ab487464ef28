-- ===== src/Engine/Meter/Tests.antt =====
-- Runs of the meter at concrete events, and the theorems applied to them.
use megapet.Common.{◌≡◌, refl, [], ◌∷◌, some, arith}
use megapet.Common.Sample.{sample_num}
use megapet.Engine.Meter.{
  RateMeter, new, start, add, sample, mark_grace, measured_bytes, drop_old, anchor_from, live,
  final, to_mbps,
}
use megapet.Engine.Meter.Window.{sample-Recent, RestRecent}
use megapet.Engine.Meter.Grace.{adds, samples, run, final-mark_grace}

meter : Unit {0}
unfolding start add sample mark_grace measured_bytes drop_old anchor_from live final to_mbps run
meter = tt

-- 3 MB in three seconds, 2 MB of them in the last.
abbrev ramped : RateMeter
ramped = sample 3000 (add 2000000 (sample 2000 (add 1000000 (start 0 new))))

rates : (live 1000 3000 ramped ≡ some 16) × (final 3000 ramped ≡ some 8)
unfolding meter
rates = (refl, refl)

sample-Recent_example : RestRecent 9000 (sample 9000 ramped).samples
unfolding meter
sample-Recent_example = (sample-Recent 9000 ramped (omega arith) (omega arith)).1

final-mark_grace_example :
    measured_bytes (run (adds 5 ∷ samples 3100 ∷ adds 6 ∷ []) (mark_grace 3000 ramped)) ≡ 11
final-mark_grace_example =
    (final-mark_grace 3000 4000 (adds 5 ∷ samples 3100 ∷ adds 6 ∷ []) ramped).0
