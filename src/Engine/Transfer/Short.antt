-- ===== src/Engine/Transfer/Short.antt =====
-- transfer-phase.ts, `run`: a window that is not longer than the grace period.
use megapet.Common.{
  ℕ, ◌⊎◌, ◌-◌, ◌≤◌, ◌≡◌, refl, ap, subst, ◌∙◌, leb, Bool, true, false, not, ◌&&◌, Option, none,
  some, List, [], ◌∷◌, is_some, Num, arith, if_cases, Bool-cases, inl, inr, leb→le, leb→lt, ◌<◌,
}
use megapet.Engine.Meter.{RateMeter}
use megapet.Engine.Meter
use megapet.Engine.Transfer.{
  Phase, Options, Outcome, TransferResult, Event, ticks, aborts, counts, ok, begin, capture,
  measure, on_tick, on_abort, on_bytes, wind_up, conclude, finish, step, run, answer, graced,
}
use megapet.Engine.Transfer.Capture.{figures, measure-kept}

module _ ⦃F : Num⦄ where
  -- What holds of a phase whose window is not longer than its grace period: the grace mark is only
  -- ever set by the tick that closes the window, so the figures cover no time and no bytes.
  abbrev Empty : F.R → Option (TransferResult F.R) → Type 0
  Empty overhead none = Unit
  Empty overhead (some r) = (r.bytes ≡ 0) × (r.mbps ≡ F.mul (F.of_ℕ 0) overhead)

  pub record IsShort (d : ℕ) (p : Phase F.R) : Type 0 where
    pub scheduled : p.options.duration_ms ≡ some d
    pub short : d ≤ p.options.grace_ms
    pub ungraced : (p.meter.graced && not (is_some p.captured)) ≡ false
    pub empty : Empty p.options.overhead p.captured

  to_mbps-same : (now : ℕ) (bytes : ℕ) → Meter.to_mbps bytes (now - now) ≡ F.of_ℕ 0
  unfolding Meter.to_mbps
  to_mbps-same now bytes = ground arith

  -- The grace mark is not set, or was set in this very moment.
  abbrev MarkedNow : ℕ → RateMeter → Type 0
  MarkedNow now m = (m.graced ≡ false) ⊎ ((m.base_bytes ≡ m.total) × (m.base_time ≡ now))

  graced-MarkedNow :
      (now : ℕ) (m : RateMeter)
      → MarkedNow now m
      → ((graced now m).base_bytes ≡ (graced now m).total) × ((graced now m).base_time ≡ now)
  unfolding graced Meter.mark_grace
  graced-MarkedNow now m h = ground arith

  figures-Empty :
      (now : ℕ) (p : Phase F.R)
      → MarkedNow now p.meter
      → ((figures now p).bytes ≡ 0) × ((figures now p).mbps ≡ F.mul (F.of_ℕ 0) p.options.overhead)
  unfolding Meter.measured_bytes Meter.final
  figures-Empty now p h =
      let (b, t) = graced-MarkedNow now p.meter h in
      (
        omega (arith, b),
        ap (λ x. F.mul x p.options.overhead)
            (ap
                (λ (x : ℕ).
                  Meter.to_mbps ((graced now p.meter).total - (graced now p.meter).base_bytes)
                    (now - x))
                t
              ∙ to_mbps-same now _),
      )

  capture-IsShort :
      (d now : ℕ) (p : Phase F.R)
      → p.options.duration_ms ≡ some d
      → d ≤ p.options.grace_ms
      → Empty p.options.overhead p.captured
      → MarkedNow now p.meter ⊎ (is_some p.captured ≡ true)
      → IsShort d (capture now p)
  unfolding capture
  capture-IsShort d now p s h e m =
      if_cases (IsShort d) (is_some p.captured) p _
        (λ c. record { scheduled = s; short = h; ungraced = ground arith; empty = e })
        λ c. record {
          scheduled = s;
          short = h;
          ungraced = ground arith;
          empty = figures-Empty now p (unless c m);
        }
    where
      unless :
          is_some p.captured ≡ false
          → MarkedNow now p.meter ⊎ (is_some p.captured ≡ true)
          → MarkedNow now p.meter
      unless c (inl x) = x
      unless c (inr x) = cc

  measure-MarkedNow :
      (now : ℕ) (p : Phase F.R) → p.meter.graced ≡ false → MarkedNow now (measure now p).meter
  unfolding measure Meter.sample Meter.mark_grace
  measure-MarkedNow now p g = ground arith

  measure-ungraced :
      (now : ℕ) (p : Phase F.R)
      → now - p.started < p.options.grace_ms
      → (measure now p).meter.graced ≡ p.meter.graced
  unfolding measure Meter.sample
  measure-ungraced now p h = ground arith

  idle-IsShort :
      (now again d : ℕ) (p : Phase F.R)
      → p.ticking ≡ false
      → IsShort d p
      → IsShort d (on_tick now again p)
  unfolding on_tick
  idle-IsShort now again d p t v = ground arith

  -- `now - started < d`, so the window is open and the grace mark is not due.
  open-IsShort :
      (now again d : ℕ) (p : Phase F.R)
      → p.ticking ≡ true
      → now - p.started < d
      → IsShort d p
      → IsShort d (on_tick now again p)
  unfolding on_tick
  open-IsShort now again d p t h v =
      let (total, captured, options) = measure-kept now p in
      let same = measure-ungraced now p (omega (arith, v.short)) in
      ground (arith, total, captured, options, same, v.scheduled, v.short, v.ungraced, v.empty)

  marked :
      (now : ℕ) (p : Phase F.R)
      → (p.meter.graced && not (is_some p.captured)) ≡ false
      → MarkedNow now (measure now p).meter ⊎ (is_some (measure now p).captured ≡ true)
  marked now p h = elim (Bool-cases p.meter.graced) [
    | inr g ↦ inl (measure-MarkedNow now p g)
    | inl g ↦ inr (ground (arith, measure-kept now p))
  ]

  capture-measure-IsShort :
      (now d : ℕ) (p : Phase F.R) → IsShort d p → IsShort d (capture now (measure now p))
  capture-measure-IsShort now d p v =
      let (total, captured, options) = measure-kept now p in
      capture-IsShort d now (measure now p) (rw options v.scheduled) (rw options v.short)
        (rw (options, captured) v.empty) (marked now p v.ungraced)

  closed-IsShort :
      (now again d : ℕ) (p : Phase F.R)
      → p.ticking ≡ true
      → d ≤ now - p.started
      → IsShort d p
      → IsShort d (on_tick now again p)
  unfolding on_tick
  closed-IsShort now again d p t h v =
      let w = capture-measure-IsShort now d p v in
      ground (arith, w.scheduled, w.short, w.ungraced, w.empty, v.scheduled)

  on_tick-IsShort :
      (now again d : ℕ) (p : Phase F.R) → IsShort d p → IsShort d (on_tick now again p)
  on_tick-IsShort now again d p v = elim (Bool-cases p.ticking) [
    | inr t ↦ idle-IsShort now again d p t v
    | inl t ↦ elim (Bool-cases (leb d (now - p.started))) [
      | inl h ↦ closed-IsShort now again d p t (leb→le _ _ h) v
      | inr h ↦ open-IsShort now again d p t (leb→lt _ _ h) v
    ]
  ]

  capture-options : (now : ℕ) (p : Phase F.R) → (capture now p).options ≡ p.options
  unfolding capture
  capture-options now p = ground arith

  on_tick-options : (now again : ℕ) (p : Phase F.R) → (on_tick now again p).options ≡ p.options
  unfolding on_tick
  on_tick-options now again p =
      ground (arith, measure-kept now p, capture-options now (measure now p))

  begin-options : (o : Options F.R) (aborted : Bool) (now : ℕ) → (begin o aborted now).options ≡ o
  unfolding begin
  begin-options o aborted now = refl

  step-IsShort : (d : ℕ) (e : Event) (p : Phase F.R) → IsShort d p → IsShort d (step e p)
  unfolding step on_abort on_bytes Meter.add
  step-IsShort d (ticks now again) p v = on_tick-IsShort now again d p v
  step-IsShort d aborts p v = ground arith
  step-IsShort d (counts n) p v = ground arith

  run-IsShort : (d : ℕ) (es : List Event) (p : Phase F.R) → IsShort d p → IsShort d (run es p)
  unfolding run
  run-IsShort d [] p v = v
  run-IsShort d (e ∷ es) p v = run-IsShort d es (step e p) (step-IsShort d e p v)

  begin-IsShort :
      (o : Options F.R) (aborted : Bool) (now d : ℕ)
      → o.duration_ms ≡ some d
      → d ≤ o.grace_ms
      → IsShort d (begin o aborted now)
  unfolding begin Meter.start
  begin-IsShort o aborted now d e h = record {
    scheduled = e;
    short = h;
    ungraced = refl;
    empty = tt;
  }

  answer-Empty :
      (overhead : F.R) (p : Phase F.R) (r : TransferResult F.R)
      → Empty overhead p.captured
      → answer p ≡ ok r
      → Empty overhead (some r)
  answer-Empty overhead p r e h = ground arith

  conclude-Empty :
      (now d : ℕ) (p : Phase F.R) (r : TransferResult F.R)
      → IsShort d p
      → (conclude now p).1 ≡ ok r
      → Empty p.options.overhead (some r)
  unfolding conclude
  conclude-Empty now d p r v h =
      let m : MarkedNow now p.meter ⊎ (is_some p.captured ≡ true) =
        elim (Bool-cases p.meter.graced) [ inr g ↦ inl (inl g) | inl g ↦ inr (ground arith) ] in
      let w = capture-IsShort d now p v.scheduled v.short v.empty m in
      answer-Empty p.options.overhead (capture now p) r
        (subst (λ (o : Options F.R). Empty o.overhead (capture now p).captured)
          (capture-options now p) w.empty)
        (ground arith)

  run-options : (es : List Event) (p : Phase F.R) → (run es p).options ≡ p.options
  unfolding run step on_tick on_abort on_bytes
  run-options [] p = refl
  run-options (ticks now again ∷ es) p =
      run-options es (on_tick now again p) ∙ on_tick-options now again p
  run-options (aborts ∷ es) p = run-options es (on_abort p)
  run-options (counts n ∷ es) p = run-options es (on_bytes n p)

  -- A phase whose window is not longer than its grace period measures nothing: whatever happens,
  -- the figures that it answers cover no bytes, at the rate of zero.
  pub finish-IsShort :
      (o : Options F.R) (aborted : Bool) (started now d : ℕ) (es : List Event)
      (outcomes : List Outcome) (r : TransferResult F.R)
      → o.duration_ms ≡ some d
      → d ≤ o.grace_ms
      → (finish now outcomes (run es (begin o aborted started))).1 ≡ ok r
      → (r.bytes ≡ 0) × (r.mbps ≡ F.mul (F.of_ℕ 0) o.overhead)
  unfolding finish wind_up
  finish-IsShort o aborted started now d es outcomes r s h e =
      let p = run es (begin o aborted started) in
      let v = run-IsShort d es _ (begin-IsShort o aborted started d s h) in
      let w : IsShort d (wind_up p) = record {
        scheduled = v.scheduled;
        short = v.short;
        ungraced = v.ungraced;
        empty = v.empty;
      } in
      let same = run-options es (begin o aborted started) ∙ begin-options o aborted started in
      subst (λ (o : Options F.R). Empty o.overhead (some r)) same
        (conclude-Empty now d (wind_up p) r w (ground arith))
