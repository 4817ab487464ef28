-- ===== src/Engine/Meter/Grace.antt =====
-- meter.ts: the measurement window begins at the grace mark.
use megapet.Common.{ℕ, ◌+◌, ◌-◌, ◌≡◌, refl, ap, ap₂, List, [], ◌∷◌, Num, arith}
use megapet.Engine.Meter.{RateMeter, add, sample, mark_grace, measured_bytes, final, to_mbps}

-- What a phase does to its meter after the grace mark.
pub data Op : Type 0 where
  adds : ℕ → Op
  samples : ℕ → Op

unfoldable pub run : List Op → RateMeter → RateMeter
run [] m = m
run (adds n ∷ ops) m = run ops (add n m)
run (samples now ∷ ops) m = run ops (sample now m)

-- The bytes that the operations report.
abbrev pub added : List Op → ℕ
added [] = 0
added (adds n ∷ ops) = n + added ops
added (samples now ∷ ops) = added ops

run-base :
    (ops : List Op) (m : RateMeter)
    → ((run ops m).base_bytes ≡ m.base_bytes)
      × ((run ops m).base_time ≡ m.base_time)
      × ((run ops m).total ≡ m.total + added ops)
unfolding run add sample
run-base [] m = (refl, refl, omega arith)
run-base (adds n ∷ ops) m = ground (arith, run-base ops (record m { total = m.total + n }))
run-base (samples now ∷ ops) m = run-base ops (sample now m)

module _ ⦃F : Num⦄ where
  -- The final rate counts exactly the bytes reported after the grace mark, over the time since.
  pub final-mark_grace :
      (now later : ℕ) (ops : List Op) (m : RateMeter)
      → (measured_bytes (run ops (mark_grace now m)) ≡ added ops)
        × (final later (run ops (mark_grace now m)) ≡ to_mbps (added ops) (later - now))
  unfolding measured_bytes mark_grace final
  final-mark_grace now later ops m =
      let (b, t, n) = run-base ops (mark_grace now m) in
      let bytes : (run ops (mark_grace now m)).total - (run ops (mark_grace now m)).base_bytes
          ≡ added ops =
        omega (arith, b, n) in
      (bytes, ap₂ to_mbps bytes (ap (λ (x : ℕ). later - x) t))
