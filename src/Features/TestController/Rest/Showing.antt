-- ===== src/Features/TestController/Rest/Showing.antt =====
-- web/src/ui/features/test-controller.ts: the snapshots of a run ask nothing of a server.
use Prim.Native.String.{String}
use megapet.Common.{
  ℕ, suc, refl, ap, ◌∙◌, if◌then◌else◌, if_cases, option_cases, Bool, true, false, Option, some,
  List, [], ◌∷◌, ◌++◌, Num,
}
use megapet.Engine.Monitor.{Clocks}
use megapet.Engine.Runner.{Stage, latency, reversing, Snapshot}
use megapet.Features.TestController.Recording.{same_stage, record_snapshot}
use megapet.Features.TestController.Trace.{Request, traced-append, requested_by}
use megapet.Features.TestController.{TestController, calls, on_update, apply_snapshot}
use megapet.Features.TestController.Calls.{
  Call, activity, live_down, live_up, loads, phase_calls, reading_calls, style_of, visual_progress,
  live, sampled,
}
use megapet.Features.TestController.Rest.{show_all, Open, IsOpen, calls-IsOpen}

module _ ⦃F : Num⦄ where
  phase_calls-Open : (s : Snapshot F.R) → Open (phase_calls s)
  unfolding phase_calls
  phase_calls-Open s =
      if_cases Open (same_stage s.phase reversing) _ _ (λ _. refl)
        λ _. option_cases Open (style_of s.phase) [] _ (λ _. refl) λ y _. refl

  reading_calls-Open : (s : Snapshot F.R) → Open (reading_calls s)
  unfolding reading_calls
  reading_calls-Open s =
      if_cases Open (same_stage s.phase reversing) _ _ (λ _. refl)
        λ _. if_cases Open (same_stage s.phase latency) _ _ (λ _. refl) λ _. refl

  sampled-Open :
      (added : Bool) (cs : List (Call F.R))
      → Open cs
      → Open ((if added then sampled ∷ [] else []) ++ cs)
  sampled-Open true cs h = h
  sampled-Open false cs h = h

  apply_snapshot-IsOpen :
      (id : Option String) (ids : List Request) (c : Clocks) (s : Snapshot F.R)
      (m : TestController F.R)
      → IsOpen id ids m
      → IsOpen id ids (apply_snapshot c s m)
  unfolding apply_snapshot
  apply_snapshot-IsOpen id ids c s m v =
      let (recording, added) = record_snapshot c s m.recording in
      calls-IsOpen id ids _ (record m { recording = recording })
        (sampled-Open added
          (live (live_down s) (live_up s) ∷ visual_progress s.progress ∷ reading_calls s)
          (reading_calls-Open s))
        (record { opened_run = v.opened_run; closed = v.closed })

  on_update-IsOpen :
      (id : Option String) (ids : List Request) (c : Clocks) (s : Snapshot F.R) (last_phase : Stage)
      (m : TestController F.R)
      → IsOpen id ids m
      → IsOpen id ids (on_update c s (last_phase, m)).1
  unfolding on_update
  on_update-IsOpen id ids c s last_phase m v =
      let turned = phase_calls s ++ activity (some (loads s.phase)) ∷ [] in
      let open_turned : Open turned =
        traced-append requested_by (phase_calls s) (activity (some (loads s.phase)) ∷ [])
        ∙ ap (λ (t : List Request). t ++ []) (phase_calls-Open s) in
      if_cases (λ (p : Stage × TestController F.R). IsOpen id ids p.1)
        (same_stage s.phase last_phase) (last_phase, apply_snapshot c s m)
        (s.phase, apply_snapshot c s (calls turned m)) (λ _. apply_snapshot-IsOpen id ids c s m v)
        λ _.
          apply_snapshot-IsOpen id ids c s (calls turned m)
            (calls-IsOpen id ids turned m open_turned v)

  pub show_all-IsOpen :
      (id : Option String) (ids : List Request) (clock : ℕ → Clocks) (i : ℕ)
      (shown : List (Snapshot F.R)) (last_phase : Stage) (m : TestController F.R)
      → IsOpen id ids m
      → IsOpen id ids (show_all clock i shown (last_phase, m)).1
  unfolding show_all
  show_all-IsOpen id ids clock i [] last_phase m v = v
  show_all-IsOpen id ids clock i (s ∷ rest) last_phase m v =
      let q = on_update (clock i) s (last_phase, m) in
      show_all-IsOpen id ids clock (suc i) rest q.0 q.1
        (on_update-IsOpen id ids (clock i) s last_phase m v)
