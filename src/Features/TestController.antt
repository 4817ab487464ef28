-- ===== src/Features/TestController.antt =====
-- web/src/ui/features/test-controller.ts: a test run, shown and recorded.
--
-- `run` is cut where it waits: for the server to open a run (`begin`, then `start_test`), for the
-- test (`on_update` for each of its snapshots, then `ended`), and for the server to close the run
-- (`persisted`). What is asked of the views, the server and the test is a log of calls; a figure is
-- logged before it is formatted. The answers of the visual, the clocks and the outcomes of the
-- server are arguments.
pub mod Calls
pub mod Recording
pub mod Recorded
pub mod Rate
pub mod Trace
pub mod Rest
pub mod Marks
pub mod Reentry
mod Tests
use Prim.Native.String.{String}
use Prim.Native.String as Text
use megapet.Common.{
  ℕ, ◌+◌, ◌-◌, ltb, ◌==◌, if◌then◌else◌, Bool, true, false, not, ◌&&◌, ◌||◌, Option, none, some,
  List, [], ◌∷◌, ◌++◌, is_some, or_else, Num,
}
use megapet.Engine.Transfer.{Thrown}
use megapet.Engine.Monitor.{Directions, Clocks}
use megapet.Engine.Runner.{
  Stage, idle, latency, reversing, download, upload, done, aborted, error, Snapshot, Pacing,
  Settled, gives, throws,
}
use megapet.Engine.Runner.Stages.{describe_error}
use megapet.Visuals.Lift.Layout.{Drive, up, down}
use megapet.Features.TestController.Calls.{
  Accent, Call, Figure, Peer, PhaseStyle, RunLabels, RunOutcome, Spoken, StatKey, aborts, activity,
  announce, base_of, closes_run, complete, complete_calls, down_stat, failed_calls, jitter,
  labels_of, live, live_down, live_up, loads, ms, next_name, not_stored, nothing, notify, opens_run,
  phase_calls, ping, primary, rate, reading_calls, reversing_drive, running, sampled, saved, says,
  secondary, starts, stat, stats_active, stats_reset, stats_rest, stopped_calls, stored, style_of,
  tertiary, up_stat, visual_accent, visual_active, visual_drive, visual_land, visual_park,
  visual_phase, visual_position, visual_progress, visual_reading, visual_reset,
}
use megapet.Features.TestController.Recording.{
  RunRecording, record_snapshot, begin_recording, end_recording, same_stage,
}

pub record TestController (R : Type 0) : Type 0 where
  -- the test that is under way, and the number of the next one
  pub test : Option ℕ
  pub next_test : ℕ
  pub run_id : Option String
  pub recording : RunRecording R
  pub log : List (Call R)

module _ {R : Type 0} where
  abbrev pub calls : List (Call R) → TestController R → TestController R
  calls cs m = record m { log = m.log ++ cs }

  unfoldable pub abort : TestController R → TestController R
  abort m = elim m.test [ none ↦ m | some t ↦ calls (aborts t ∷ []) m ]

  -- What `run` does once it knows whether the server opened a run, up to the test's first snapshot.
  unfoldable pub start_test : Pacing → TestController R → TestController R
  start_test pacing m =
      calls (starts m.next_test pacing m.run_id ∷ [])
        (record m { test = some m.next_test; next_test = m.next_test + 1 })

  -- The server's answer to the request to open a run.
  unfoldable pub opened : Pacing → Settled String → TestController R → TestController R
  opened pacing (gives id) m = start_test pacing (record m { run_id = some id })
  opened pacing (throws e) m =
      start_test pacing (calls (notify "This run will not be recorded." ∷ []) m)

module _ ⦃F : Num⦄ where
  -- What `run` does before it asks the server to open a run.
  abbrev pub prepare : Clocks → TestController F.R → TestController F.R
  prepare c m =
      calls
        (activity (some nothing)
          ∷ stats_reset
          ∷ visual_reset
          ∷ visual_active true
          ∷ running true
          ∷ [])
        (record m { run_id = none; recording = begin_recording c m.recording })

  -- `run` up to its first wait.
  unfoldable pub begin :
      Clocks
      → Pacing
      → (store_enabled : Bool) → Option Peer
      → TestController F.R
      → TestController F.R
  begin c pacing store_enabled peer m =
      if is_some m.test
      then m
      else if store_enabled
      then calls (opens_run (base_of peer) ∷ []) (prepare c m)
      else start_test pacing (prepare c m)

  unfoldable pub apply_snapshot : Clocks → Snapshot F.R → TestController F.R → TestController F.R
  apply_snapshot c s m =
      let (recording, added) = record_snapshot c s m.recording in
      calls
        ((if added then sampled ∷ [] else [])
          ++ (live (live_down s) (live_up s) ∷ visual_progress s.progress ∷ reading_calls s))
        (record m { recording = recording })

  -- The callback of a run, with its `lastPhase`.
  unfoldable pub on_update :
      Clocks → Snapshot F.R → Stage × TestController F.R → Stage × TestController F.R
  on_update c s (last_phase, m) =
      if same_stage s.phase last_phase then (last_phase, apply_snapshot c s m) else (
        s.phase,
        apply_snapshot c s (calls (phase_calls s ++ activity (some (loads s.phase)) ∷ []) m),
      )

  -- The run that `if (!run)` lets through: one whose id is not empty.
  abbrev pub truthy : Option String → Option String
  truthy none = none
  truthy (some id) = if Text.len id == 0 then none else some id

  -- `persist` up to its wait.
  unfoldable pub persist : Option Peer → TestController F.R → TestController F.R
  persist peer m = elim (truthy m.run_id) [
    | none ↦ record m { run_id = none }
    | some run ↦ calls (closes_run none run (labels_of peer) ∷ []) (record m { run_id = none })
  ]

  unfoldable pub persisted : Settled RunOutcome → TestController F.R → TestController F.R
  persisted (gives (stored id)) m = calls (saved id ∷ []) m
  persisted (gives not_stored) m = m
  persisted (throws e) m =
      calls (notify (Text.◌++◌ "Result not recorded: " (describe_error e)) ∷ []) m

  unfoldable pub finish : Snapshot F.R → Option Peer → TestController F.R → TestController F.R
  finish s peer m =
      let parked = calls (visual_park ∷ visual_accent primary ∷ []) m in
      if same_stage s.phase error
      then calls (failed_calls s) parked
      else if same_stage s.phase aborted
      then calls stopped_calls parked
      else persist peer (calls (complete_calls s) parked)

  -- The rest of `run`, once its test has returned.
  unfoldable pub ended :
      Clocks → Snapshot F.R → Option Peer → TestController F.R → TestController F.R
  ended c s peer m = finish s peer (
      calls (activity none ∷ visual_active false ∷ running false ∷ stats_rest ∷ [])
        (record m { test = none; recording = end_recording c m.recording }))
