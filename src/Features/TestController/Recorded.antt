-- ===== src/Features/TestController/Recorded.antt =====
-- web/src/ui/features/test-controller.ts: what the recording of the runs holds.
use megapet.Common.{
  ◌+◌, ◌-◌, ◌≤◌, ◌==◌, if◌then◌else◌, if_cases, Bool, true, false, List, [], ◌∷◌, Num, arith,
}
use megapet.Engine.Series.Validity.{IsValid, add-IsValid_step}
use megapet.Engine.Series.Compact.{last_t}
use megapet.Engine.Monitor.{Clocks}
use megapet.Engine.Runner.{Snapshot}
use megapet.Features.TestController.Recording.{
  RunRecording, sample_ms, sampled_now, point_of, floor_at, store_snapshot, record_snapshot,
  is_empty, add_floor, begin_recording, end_recording,
}

-- What happens to a recording: a run begins, shows a snapshot, ends.
data Entry (R : Type 0) : Type 0 where
  begins ends : Clocks → Entry R
  shows : Clocks → Snapshot R → Entry R

module _ ⦃F : Num⦄ where
  unfoldable enter : Entry F.R → RunRecording F.R → RunRecording F.R
  enter (begins c) r = begin_recording c r
  enter (ends c) r = end_recording c r
  enter (shows c s) r = (record_snapshot c s r).0

  unfoldable enter_all : List (Entry F.R) → RunRecording F.R → RunRecording F.R
  enter_all [] r = r
  enter_all (e ∷ rest) r = enter_all rest (enter e r)

  -- The series is valid, and the timeline has reached its newest point.
  record IsRecorded (r : RunRecording F.R) : Type 0 where
    pub valid : IsValid r.series
    pub reached : last_t 0 r.series.points ≤ r.timeline

  add_floor-IsRecorded :
      (c : Clocks) (r : RunRecording F.R) → IsRecorded r → IsRecorded (add_floor c r)
  unfolding add_floor
  add_floor-IsRecorded c r v =
      let t = r.timeline + sample_ms in
      let (w, k) =
        add-IsValid_step (floor_at t) c.date c.now r.series (omega (arith, v.reached)) v.valid in
      record { valid = w; reached = k }

  store_snapshot-IsRecorded :
      (c : Clocks) (s : Snapshot F.R) (r : RunRecording F.R)
      → IsRecorded r
      → IsRecorded (store_snapshot c s r)
  unfolding store_snapshot
  store_snapshot-IsRecorded c s r v =
      let t = r.timeline + (if r.recorded_at == 0 then 0 else c.now - r.recorded_at) in
      let later : r.timeline ≤ t = ground arith in
      let (w, k) =
        add-IsValid_step (point_of t s) c.date c.now r.series (omega (arith, v.reached, later))
          v.valid in
      record { valid = w; reached = k }

  enter-IsRecorded : (e : Entry F.R) (r : RunRecording F.R) → IsRecorded r → IsRecorded (enter e r)
  unfolding enter begin_recording end_recording record_snapshot
  enter-IsRecorded (begins c) r v =
      let w = add_floor-IsRecorded c r v in
      if_cases IsRecorded (is_empty r) _ _ (λ _. record { valid = v.valid; reached = v.reached })
        λ _. record { valid = w.valid; reached = omega (arith, w.reached) }
  enter-IsRecorded (ends c) r v =
      if_cases IsRecorded (is_empty r) r (add_floor c r) (λ _. v) λ _. add_floor-IsRecorded c r v
  enter-IsRecorded (shows c s) r v =
      if_cases (λ (p : RunRecording F.R × Bool). IsRecorded p.0) (sampled_now c.now s.phase r)
        (store_snapshot c s r, true) (r, false) (λ _. store_snapshot-IsRecorded c s r v) λ _. v

  -- Whatever runs are begun, shown and ended, by whatever clocks, the recording stays a valid series
  -- with timestamps that never fall, and the timeline stays at or past the newest of them.
  enter_all-IsRecorded :
      (entries : List (Entry F.R)) (r : RunRecording F.R)
      → IsRecorded r
      → IsRecorded (enter_all entries r)
  unfolding enter_all
  enter_all-IsRecorded [] r v = v
  enter_all-IsRecorded (e ∷ rest) r v =
      enter_all-IsRecorded rest (enter e r) (enter-IsRecorded e r v)
