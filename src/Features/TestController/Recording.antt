-- ===== src/Features/TestController/Recording.antt =====
-- web/src/ui/features/test-controller.ts: the recording of the runs, on one timeline.
use megapet.Common.{
  ℕ, ◌+◌, ◌-◌, ltb, ◌==◌, if◌then◌else◌, Bool, true, false, not, ◌&&◌, ◌||◌, [], Num, length,
}
use megapet.Engine.Series.{TimeSeries, SeriesPoint, add}
use megapet.Engine.Monitor.{Clocks}
use megapet.Engine.Runner.{
  Stage, idle, latency, reversing, download, upload, done, aborted, error, Snapshot,
}

abbrev pub sample_ms : ℕ
sample_ms = 250

pub record RunRecording (R : Type 0) : Type 0 where
  pub series : TimeSeries R
  pub recorded_at : ℕ
  pub recorded_phase : Stage
  pub timeline : ℕ

abbrev pub stage_number : Stage → ℕ
stage_number idle = 0
stage_number latency = 1
stage_number reversing = 2
stage_number download = 3
stage_number upload = 4
stage_number done = 5
stage_number aborted = 6
stage_number error = 7

-- `a === b`
abbrev pub same_stage : Stage → Stage → Bool
same_stage a b = stage_number a == stage_number b

module _ ⦃F : Num⦄ where
  -- The fields of a new controller: its series holds 600 points, 250 milliseconds apart.
  abbrev pub fresh_recording : RunRecording F.R
  fresh_recording = record {
    series = record {
      points = [];
      interval = 250;
      count = 0;
      began = 0;
      last_write = 0;
      max_down = F.of_ℕ 0;
      max_up = F.of_ℕ 0;
      capacity = 600;
    };
    recorded_at = 0;
    recorded_phase = idle;
    timeline = 0;
  }

  -- Whether a snapshot is sampled: every phase but the first and the last, and within a phase no
  -- more often than the series can show.
  unfoldable pub sampled_now : (now : ℕ) → Stage → RunRecording F.R → Bool
  sampled_now now phase r =
      not (same_stage phase idle || same_stage phase done)
      && not (
          same_stage phase r.recorded_phase
          && not (r.recorded_at == 0)
          && ltb (now - r.recorded_at) sample_ms)

  abbrev pub point_of : (t : ℕ) → Snapshot F.R → SeriesPoint F.R
  point_of t s = record {
    t = t;
    down = if same_stage s.phase download then s.live_mbps else F.of_ℕ 0;
    up = if same_stage s.phase upload then s.live_mbps else F.of_ℕ 0;
  }

  abbrev pub floor_at : ℕ → SeriesPoint F.R
  floor_at t = record { t = t; down = F.of_ℕ 0; up = F.of_ℕ 0 }

  unfoldable pub store_snapshot : Clocks → Snapshot F.R → RunRecording F.R → RunRecording F.R
  store_snapshot c s r =
      let timeline = r.timeline + (if r.recorded_at == 0 then 0 else c.now - r.recorded_at) in
      record {
        recorded_phase = s.phase;
        timeline = timeline;
        recorded_at = c.now;
        series = add (point_of timeline s) c.date c.now r.series;
      }

  -- `record`; the Boolean says that `onSample` is called.
  unfoldable pub record_snapshot :
      Clocks → Snapshot F.R → RunRecording F.R → RunRecording F.R × Bool
  record_snapshot c s r =
      if sampled_now c.now s.phase r then (store_snapshot c s r, true) else (r, false)

  abbrev pub is_empty : RunRecording F.R → Bool
  is_empty r = length r.series.points == 0

  -- A point on the floor, a step further on.
  unfoldable pub add_floor : Clocks → RunRecording F.R → RunRecording F.R
  add_floor c r = record r {
    timeline = r.timeline + sample_ms;
    series = add (floor_at (r.timeline + sample_ms)) c.date c.now r.series;
  }

  unfoldable pub begin_recording : Clocks → RunRecording F.R → RunRecording F.R
  begin_recording c r =
      let floored = add_floor c r in
      if is_empty r then record r { recorded_phase = idle; recorded_at = 0 } else record floored {
        recorded_phase = idle;
        recorded_at = 0;
        timeline = floored.timeline + sample_ms;
      }

  unfoldable pub end_recording : Clocks → RunRecording F.R → RunRecording F.R
  end_recording c r = if is_empty r then r else add_floor c r
