-- ===== src/Engine/Transfer/Capture.antt =====
-- transfer-phase.ts, `run`: when the figures of a phase are taken, and what it answers.
use megapet.Common.{
  ℕ, ◌+◌, ◌≤◌, ◌≡◌, refl, ◌∙◌, true, false, not, ◌&&◌, none, some, List, [], ◌∷◌, Num, arith,
}
use megapet.Engine.Meter.{RateMeter}
use megapet.Engine.Meter
use megapet.Engine.Transfer.{
  Phase, Outcome, TransferResult, Event, ticks, aborts, counts, ok, capture, measure, on_tick,
  on_abort, on_bytes, wind_up, conclude, finish, step, run, all_failed, graced,
}

module _ ⦃F : Num⦄ where
  -- The window is over: the figures are taken, the interval is stopped, the workers are aborted.
  record IsClosed (r : TransferResult F.R) (p : Phase F.R) : Type 0 where
    pub taken : p.captured ≡ some r
    pub quiet : p.ticking ≡ false
    pub cut_off : p.aborted ≡ true

  step-IsClosed :
      (r : TransferResult F.R) (e : Event) (p : Phase F.R)
      → IsClosed r p
      → IsClosed r (step e p) × ((step e p).reported ≡ p.reported)
  unfolding step on_tick on_abort on_bytes
  step-IsClosed r (ticks now again) p v = ground arith
  step-IsClosed r aborts p v = ground arith
  step-IsClosed r (counts n) p v = ground arith

  run-IsClosed :
      (r : TransferResult F.R) (es : List Event) (p : Phase F.R)
      → IsClosed r p
      → IsClosed r (run es p) × ((run es p).reported ≡ p.reported)
  unfolding run
  run-IsClosed r [] p v = (v, refl)
  run-IsClosed r (e ∷ es) p v =
      let (w, same) = step-IsClosed r e p v in
      let (x, rest) = run-IsClosed r es (step e p) w in (x, rest ∙ same)

  finish-captured :
      (now : ℕ) (r : TransferResult F.R) (outcomes : List Outcome) (p : Phase F.R)
      → p.captured ≡ some r
      → (all_failed outcomes && not p.signal_aborted) ≡ false
      → (finish now outcomes p).1 ≡ ok r
  unfolding finish conclude capture wind_up
  finish-captured now r outcomes p h k = ground arith

  -- A closed phase answers its figures and reports nothing more.
  finish-IsClosed :
      (now : ℕ) (r : TransferResult F.R) (es : List Event) (outcomes : List Outcome) (p : Phase F.R)
      → IsClosed r p
      → (all_failed outcomes && not (run es p).signal_aborted) ≡ false
      → ((finish now outcomes (run es p)).1 ≡ ok r) × ((run es p).reported ≡ p.reported)
  finish-IsClosed now r es outcomes p v h =
      let (w, same) = run-IsClosed r es p v in
      (finish-captured now r outcomes (run es p) w.taken h, same)

  -- The figures that `capture` takes.
  abbrev pub figures : ℕ → Phase F.R → TransferResult F.R
  figures now p =
      let meter = graced now p.meter in
      record {
        mbps = F.mul (Meter.final now meter) p.options.overhead;
        bytes = Meter.measured_bytes meter;
        total_bytes = meter.total;
      }

  pub measure-kept :
      (now : ℕ) (p : Phase F.R)
      → ((measure now p).meter.total ≡ p.meter.total)
        × ((measure now p).captured ≡ p.captured)
        × ((measure now p).options ≡ p.options)
  unfolding measure Meter.sample Meter.mark_grace
  measure-kept now p = ground arith

  figures-total :
      (now : ℕ) (p : Phase F.R)
      → ((figures now p).total_bytes ≡ p.meter.total)
        × ((figures now p).bytes ≤ (figures now p).total_bytes)
  unfolding graced Meter.mark_grace Meter.measured_bytes
  figures-total now p = ground arith

  closing-IsClosed :
      (now again d : ℕ) (p : Phase F.R)
      → p.ticking ≡ true
      → p.captured ≡ none
      → p.options.duration_ms ≡ some d
      → p.started + d ≤ now
      → IsClosed (figures now (measure now p)) (on_tick now again p)
  unfolding on_tick capture
  closing-IsClosed now again d p t c e h = ground (arith, measure-kept now p)

  closing-reported :
      (now again d : ℕ) (p : Phase F.R)
      → p.ticking ≡ true
      → p.options.duration_ms ≡ some d
      → p.started + d ≤ now
      → (on_tick now again p).reported ≡ p.reported
  unfolding on_tick capture measure
  closing-reported now again d p t e h = ground arith

  -- The first tick at or past the end of the window closes it, with the bytes counted by then; the
  -- bytes inside the measurement window are no more than all of them.
  on_tick-IsClosed :
      (now again d : ℕ) (p : Phase F.R)
      → p.ticking ≡ true
      → p.captured ≡ none
      → p.options.duration_ms ≡ some d
      → p.started + d ≤ now
      → (r : TransferResult F.R) × IsClosed r (on_tick now again p)
        × (r.total_bytes ≡ p.meter.total)
        × (r.bytes ≤ r.total_bytes)
  on_tick-IsClosed now again d p t c e h =
      let (total, less) = figures-total now (measure now p) in
      (
        figures now (measure now p),
        closing-IsClosed now again d p t c e h,
        total ∙ (measure-kept now p).0,
        less,
      )

  -- The first tick at or past the end of the window closes a phase for good. Whatever follows it,
  -- further ticks, bytes that the workers still count and an abort by the caller, in any order, the
  -- phase answers the figures taken in that tick, with all bytes counted by then, unless every worker
  -- failed and nobody aborted; the tick aborts the workers and stops the interval, and neither it nor
  -- anything after it is reported.
  pub finish-on_tick :
      (now again d later : ℕ) (es : List Event) (outcomes : List Outcome) (p : Phase F.R)
      → p.ticking ≡ true
      → p.captured ≡ none
      → p.options.duration_ms ≡ some d
      → p.started + d ≤ now
      → (all_failed outcomes && not (run es (on_tick now again p)).signal_aborted) ≡ false
      → let q = run es (on_tick now again p) in
        ((finish later outcomes q).1 ≡ ok (figures now (measure now p)))
        × ((figures now (measure now p)).total_bytes ≡ p.meter.total)
        × (q.aborted ≡ true)
        × (q.ticking ≡ false)
        × (q.reported ≡ p.reported)
  finish-on_tick now again d later es outcomes p t c e h k =
      let r = figures now (measure now p) in
      let closed = closing-IsClosed now again d p t c e h in
      let (v, same) = run-IsClosed r es (on_tick now again p) closed in
      (
        (finish-IsClosed later r es outcomes (on_tick now again p) closed k).0,
        (figures-total now (measure now p)).0 ∙ (measure-kept now p).0,
        v.cut_off,
        v.quiet,
        same ∙ closing-reported now again d p t e h,
      )
