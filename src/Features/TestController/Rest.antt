-- ===== src/Features/TestController/Rest.antt =====
-- web/src/ui/features/test-controller.ts: a whole run, from its begin to its rest.
pub mod Showing
pub mod Opening
pub mod Closing
use Prim.Native.String.{String}
use megapet.Common.{
  ℕ, suc, ◌≡◌, refl, sym, ap, ◌∙◌, subst, if◌then◌else◌, if_cases, option_cases, Bool, true, false,
  not, ◌&&◌, Option, none, some, List, [], ◌∷◌, ◌++◌, is_some, Num, inl, inr,
}
use mathlib.Core.List.{reverse, append-nil}
use megapet.Engine.Monitor.{Clocks}
use megapet.Engine.Runner.{
  Stage, idle, latency, reversing, done, aborted, error, Snapshot, Pacing, TestParams, Script, Run,
  Settled, gives, throws,
}
use megapet.Engine.Runner.Stages.{run}
use megapet.Engine.Runner.Outcomes.{Verdict, run-Verdict}
use megapet.Features.TestController.Recording.{same_stage, record_snapshot}
use megapet.Features.TestController.Trace.{
  Request, opens, closes, traced, traced-append, traced-calls, requested_by,
}
use megapet.Features.TestController.{
  TestController, calls, begin, truthy, prepare, start_test, opened, on_update, apply_snapshot,
  ended, finish, persist,
}
use megapet.Features.TestController.Calls.{
  Call, Peer, closes_run, starts, opens_run, activity, primary, base_of, nothing, live_down,
  live_up, loads, phase_calls, reading_calls, failed_calls, stopped_calls, complete_calls,
  labels_of, style_of, stats_reset, stats_rest, visual_reset, visual_park, visual_active, running,
  visual_accent, visual_progress, live, sampled, notify,
}

module _ {R : Type 0} where
  -- What was asked of a server.
  abbrev pub requests : List (Call R) → List Request
  requests cs = traced requested_by cs

module _ ⦃F : Num⦄ where
  -- The snapshots of a test, shown in turn by the clock.
  unfoldable pub show_all :
      (ℕ → Clocks)
      → ℕ
      → List (Snapshot F.R)
      → Stage × TestController F.R
      → Stage × TestController F.R
  show_all clock i [] p = p
  show_all clock i (s ∷ rest) p = show_all clock (suc i) rest (on_update (clock i) s p)

  -- The state once the server has answered, where it is asked.
  unfoldable pub opened_if :
      (store_enabled : Bool) → Pacing → Settled String → TestController F.R → TestController F.R
  opened_if true pacing answer m = opened pacing answer m
  opened_if false pacing answer m = m

  -- A run with nothing else between its parts, up to the request to close it.
  unfoldable pub run_test :
      (ℕ → Clocks)
      → Pacing
      → (store_enabled : Bool) → Settled String
      → TestParams F.R
      → Script F.R
      → Option Peer
      → TestController F.R
      → TestController F.R
  run_test clock pacing store_enabled answer t script peer m =
      let test = run t pacing script in
      let started =
        opened_if store_enabled pacing answer (begin (clock 0) pacing store_enabled peer m) in
      ended (clock 1) test.snapshot peer (show_all clock 2 (reverse test.emitted) (idle, started)).1

  abbrev pub asked_if : (store_enabled : Bool) → Option Peer → List Request
  asked_if true peer = opens (base_of peer) ∷ []
  asked_if false peer = []

  -- The run that the server opened.
  abbrev pub opened_id : (store_enabled : Bool) → Settled String → Option String
  opened_id true (gives id) = some id
  opened_id true (throws e) = none
  opened_id false answer = none

  abbrev pub listed : Option String → List Request
  listed (some id) = closes none id ∷ []
  listed none = []

  abbrev pub only_if : Bool → Option String → List Request
  only_if true id = listed (truthy id)
  only_if false id = []

  abbrev pub Open : List (Call F.R) → Type 0
  Open cs = requests cs ≡ []

  -- The run that is open, and the runs that were closed.
  pub record IsOpen (id : Option String) (ids : List Request) (m : TestController F.R)
      : Type 0 where
    pub opened_run : m.run_id ≡ id
    pub closed : requests m.log ≡ ids

  pub calls-IsOpen :
      (id : Option String) (ids : List Request) (cs : List (Call F.R)) (m : TestController F.R)
      → Open cs
      → IsOpen id ids m
      → IsOpen id ids (calls cs m)
  calls-IsOpen id ids cs m h v = record {
    opened_run = v.opened_run;
    closed = traced-calls requested_by cs m h ∙ v.closed;
  }
