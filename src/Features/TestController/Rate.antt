-- ===== src/Features/TestController/Rate.antt =====
-- web/src/ui/features/test-controller.ts: how often a run is sampled.
use megapet.Common.{
  zero, suc, inl, inr, Bool-cases, ap, ◌∙◌, ℕ, ◌+◌, ◌-◌, ◌*◌, ◌≤◌, ◌<◌, ◌≡◌, refl, sym, ◌==◌,
  if◌then◌else◌, if_cases, Bool, true, false, ◌||◌, List, [], ◌∷◌, Num, arith,
}
use megapet.Engine.Series.{TimeSeries, SeriesPoint, add, store, compact}
use megapet.Engine.Monitor.{Clocks}
use megapet.Engine.Runner.{
  Stage, idle, latency, reversing, download, upload, done, aborted, error, Snapshot,
}
use megapet.Features.TestController.Recording.{
  RunRecording, sample_ms, same_stage, stage_number, sampled_now, point_of, store_snapshot,
  record_snapshot,
}

module _ ⦃F : Num⦄ where
  -- A snapshot with its clocks.
  abbrev pub Shown : Type 0
  Shown = Clocks × Snapshot F.R

  unfoldable pub show_all : List Shown → RunRecording F.R → RunRecording F.R
  show_all [] r = r
  show_all ((c, s) ∷ rest) r = show_all rest (record_snapshot c s r).0

  -- How often the phase changes, the first and the last phase left aside.
  abbrev pub skipped : Stage → Bool
  skipped phase = same_stage phase idle || same_stage phase done

  abbrev pub turn : Stage → Stage → ℕ
  turn before phase = if skipped phase || same_stage phase before then 0 else 1

  abbrev pub phase_after : Stage → Stage → Stage
  phase_after before phase = if skipped phase || same_stage phase before then before else phase

  abbrev pub turns : Stage → List Shown → ℕ
  turns before [] = 0
  turns before ((c, s) ∷ rest) = turn before s.phase + turns (phase_after before s.phase) rest

  abbrev pub last_now : ℕ → List Shown → ℕ
  last_now now [] = now
  last_now now ((c, s) ∷ rest) = last_now c.now rest

  -- The clock does not run backwards.
  abbrev pub InTime : ℕ → List Shown → Type 0
  InTime now [] = Unit
  InTime now ((c, s) ∷ rest) = (now ≤ c.now) × InTime c.now rest

  count-add :
      (p : SeriesPoint F.R) (date now : ℕ) (s : TimeSeries F.R)
      → (add p date now s).count ≡ s.count + 1
  unfolding add store compact
  count-add p date now s = ground arith

  turn-le : (before phase : Stage) → turn before phase ≤ 1
  turn-le before phase =
      if_cases (λ n. n ≤ 1) (skipped phase || same_stage phase before) 0 1 (λ _. omega arith)
        λ _. omega arith

  stage_of : ℕ → Stage
  stage_of zero = idle
  stage_of (suc zero) = latency
  stage_of (suc (suc zero)) = reversing
  stage_of (suc (suc (suc zero))) = download
  stage_of (suc (suc (suc (suc zero)))) = upload
  stage_of (suc (suc (suc (suc (suc zero))))) = done
  stage_of (suc (suc (suc (suc (suc (suc zero)))))) = aborted
  stage_of (suc (suc (suc (suc (suc (suc (suc n))))))) = error

  stage_of-stage_number : (a : Stage) → stage_of (stage_number a) ≡ a
  unfolding stage_of
  stage_of-stage_number idle = refl
  stage_of-stage_number latency = refl
  stage_of-stage_number reversing = refl
  stage_of-stage_number download = refl
  stage_of-stage_number upload = refl
  stage_of-stage_number done = refl
  stage_of-stage_number aborted = refl
  stage_of-stage_number error = refl

  same_stage-eq : (a b : Stage) → same_stage a b ≡ true → a ≡ b
  same_stage-eq a b h =
      let e : stage_number a ≡ stage_number b = ground arith in
      sym (stage_of-stage_number a) ∙ ap stage_of e ∙ stage_of-stage_number b

  record IsPaced (now : ℕ) (phase : Stage) (r q : RunRecording F.R) : Type 0 where
    pub paced :
        sample_ms * q.series.count + r.recorded_at
        ≤ sample_ms * (r.series.count + turn r.recorded_phase phase) + q.recorded_at
    pub turned : r.series.count + turn r.recorded_phase phase ≤ q.series.count
    pub started : 0 < q.recorded_at
    pub on_time : q.recorded_at ≤ now
    pub shown : q.recorded_phase ≡ phase_after r.recorded_phase phase

  stored-IsPaced :
      (c : Clocks) (s : Snapshot F.R) (r : RunRecording F.R)
      → 0 < r.recorded_at
      → r.recorded_at ≤ c.now
      → sampled_now c.now s.phase r ≡ true
      → IsPaced c.now s.phase r (store_snapshot c s r)
  unfolding sampled_now store_snapshot
  stored-IsPaced c s r h k e =
      let t = r.timeline + (if r.recorded_at == 0 then 0 else c.now - r.recorded_at) in
      let n = count-add (point_of t s) c.date c.now r.series in
      let gap : sample_ms + r.recorded_at ≤ sample_ms * turn r.recorded_phase s.phase + c.now =
        ground arith in
      record {
        paced = omega (arith, n, gap);
        turned = omega (arith, n, turn-le r.recorded_phase s.phase);
        started = omega arith;
        on_time = omega arith;
        shown = elim (Bool-cases (same_stage s.phase r.recorded_phase)) [
          | inl same ↦ ground (arith, same_stage-eq s.phase r.recorded_phase same)
          | inr new ↦ ground arith
        ];
      }

  skipped-IsPaced :
      (c : Clocks) (s : Snapshot F.R) (r : RunRecording F.R)
      → 0 < r.recorded_at
      → r.recorded_at ≤ c.now
      → sampled_now c.now s.phase r ≡ false
      → IsPaced c.now s.phase r r
  unfolding sampled_now
  skipped-IsPaced c s r h k e =
      let none_turned : turn r.recorded_phase s.phase ≡ 0 = ground arith in
      record {
        paced = omega (arith, none_turned);
        turned = omega (arith, none_turned);
        started = h;
        on_time = k;
        shown = ground arith;
      }

  record_snapshot-IsPaced :
      (c : Clocks) (s : Snapshot F.R) (r : RunRecording F.R)
      → 0 < r.recorded_at
      → r.recorded_at ≤ c.now
      → IsPaced c.now s.phase r (record_snapshot c s r).0
  unfolding record_snapshot
  record_snapshot-IsPaced c s r h k =
      if_cases (λ (p : RunRecording F.R × Bool). IsPaced c.now s.phase r p.0)
        (sampled_now c.now s.phase r) (store_snapshot c s r, true) (r, false)
        (λ e. stored-IsPaced c s r h k e) λ e. skipped-IsPaced c s r h k e

  show_all-paced_from :
      (now : ℕ) (shown : List Shown) (r : RunRecording F.R)
      → 0 < r.recorded_at
      → r.recorded_at ≤ now
      → InTime now shown
      → sample_ms * (show_all shown r).series.count + r.recorded_at
        ≤ sample_ms * (r.series.count + turns r.recorded_phase shown) + last_now now shown
  unfolding show_all
  show_all-paced_from now [] r h l k = omega arith
  show_all-paced_from now ((c, s) ∷ rest) r h l (k, ks) =
      let q = (record_snapshot c s r).0 in
      let v = record_snapshot-IsPaced c s r h (omega arith) in
      let more = show_all-paced_from c.now rest q v.started v.on_time ks in
      let phases = ap (λ (phase : Stage). turns phase rest) v.shown in
      omega (arith, v.paced, more, phases)

  show_all-turned_from :
      (now : ℕ) (shown : List Shown) (r : RunRecording F.R)
      → 0 < r.recorded_at
      → r.recorded_at ≤ now
      → InTime now shown
      → r.series.count + turns r.recorded_phase shown ≤ (show_all shown r).series.count
  unfolding show_all
  show_all-turned_from now [] r h l k = omega arith
  show_all-turned_from now ((c, s) ∷ rest) r h l (k, ks) =
      let q = (record_snapshot c s r).0 in
      let v = record_snapshot-IsPaced c s r h (omega arith) in
      let more = show_all-turned_from c.now rest q v.started v.on_time ks in
      let phases = ap (λ (phase : Stage). turns phase rest) v.shown in
      omega (arith, v.turned, more, phases)

  -- Once a run has its first sample, a recording takes at least one more for each change of phase,
  -- and of the others no more than one in every 250 milliseconds.
  pub show_all-paced :
      (shown : List Shown) (r : RunRecording F.R)
      → 0 < r.recorded_at
      → InTime r.recorded_at shown
      → (r.series.count + turns r.recorded_phase shown ≤ (show_all shown r).series.count)
        × (250 * (show_all shown r).series.count + r.recorded_at
            ≤ 250 * (r.series.count + turns r.recorded_phase shown) + last_now r.recorded_at shown)
  show_all-paced shown r h k = (
    show_all-turned_from r.recorded_at shown r h (omega arith) k,
    show_all-paced_from r.recorded_at shown r h (omega arith) k,
  )
