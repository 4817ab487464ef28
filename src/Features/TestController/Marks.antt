-- ===== src/Features/TestController/Marks.antt =====
-- web/src/ui/features/test-controller.ts: when a run tells the page that it holds the link.
use Prim.Native.String.{String}
use megapet.Common.{
  ℕ, ◌≡◌, refl, sym, ap, ◌∙◌, subst, if◌then◌else◌, if_cases, option_cases, Bool, true, false,
  Option, none, some, List, [], ◌∷◌, ◌++◌, is_some, Num, ◌⊎◌, inl, inr,
}
use mathlib.Core.List.{append-nil}
use megapet.Engine.Monitor.{Clocks}
use megapet.Engine.Runner.{
  Stage, latency, reversing, error, aborted, Snapshot, Pacing, Settled, gives, throws,
}
use megapet.Features.TestController.Recording.{
  same_stage, record_snapshot, begin_recording, end_recording,
}
use megapet.Features.TestController.Trace.{traced, traced-append}
use megapet.Features.TestController.{
  TestController, calls, begin, prepare, start_test, opened, on_update, apply_snapshot, ended,
  finish, persist, persisted, abort, truthy,
}
use megapet.Features.TestController.Rest.Opening.{begin-eq}
use megapet.Features.TestController.Calls.{
  Call, Peer, RunOutcome, activity, running, stored, not_stored, saved, notify, opens_run,
  closes_run, starts, aborts, live_down, live_up, loads, phase_calls, reading_calls, style_of,
  visual_progress, live, sampled, base_of, labels_of, failed_calls, stopped_calls, complete_calls,
  nothing, stats_reset, visual_reset, visual_active, stats_rest, visual_park, visual_accent,
  primary,
}

-- What a call says of the link: whether a run holds it, and whether the page shows one.
pub data Mark : Type 0 where
  holds shows : Bool → Mark

abbrev pub marked_by : {R : Type 0} → Call R → List Mark
marked_by (activity d) = holds (is_some d) ∷ []
marked_by (running on) = shows on ∷ []
marked_by other_call = []

abbrev pub marks : {R : Type 0} → List (Call R) → List Mark
marks cs = traced marked_by cs

module _ ⦃F : Num⦄ where
  pub record IsMarked (before : List Mark) (test : Option ℕ) (m : TestController F.R) : Type 0 where
    pub marked : marks m.log ≡ before
    pub under_way : m.test ≡ test

  -- Calls that say nothing of the link.
  quiet :
      (ms : List Mark) (test : Option ℕ) (cs : List (Call F.R)) (m : TestController F.R)
      → marks cs ≡ []
      → IsMarked ms test m
      → IsMarked ms test (calls cs m)
  quiet ms test cs m e v = record {
    marked =
        traced-append marked_by m.log cs
        ∙ ap (λ (t : List Mark). marks m.log ++ t) e
        ∙ append-nil (marks m.log)
        ∙ v.marked;
    under_way = v.under_way;
  }

  spoken :
      (ms more : List Mark) (test : Option ℕ) (cs : List (Call F.R)) (m : TestController F.R)
      → marks cs ≡ more
      → IsMarked ms test m
      → IsMarked (ms ++ more) test (calls cs m)
  spoken ms more test cs m e v = record {
    marked =
        traced-append marked_by m.log cs
        ∙ ap (λ (t : List Mark). marks m.log ++ t) e
        ∙ ap (λ (t : List Mark). t ++ more) v.marked;
    under_way = v.under_way;
  }

  start_test-IsMarked :
      (ms : List Mark) (test : Option ℕ) (pacing : Pacing) (m : TestController F.R)
      → IsMarked ms test m
      → IsMarked ms (some m.next_test) (start_test pacing m)
  unfolding start_test
  start_test-IsMarked ms test pacing m v =
      quiet ms (some m.next_test) (starts m.next_test pacing m.run_id ∷ []) _ refl
        (record { marked = v.marked; under_way = refl })

  pub opened-IsMarked :
      (ms : List Mark) (test : Option ℕ) (pacing : Pacing) (answer : Settled String)
      (m : TestController F.R)
      → IsMarked ms test m
      → IsMarked ms (some m.next_test) (opened pacing answer m)
  unfolding opened
  opened-IsMarked ms test pacing (gives id) m v =
      start_test-IsMarked ms test pacing _ (record { marked = v.marked; under_way = v.under_way })
  opened-IsMarked ms test pacing (throws e) m v =
      start_test-IsMarked ms test pacing _
        (quiet ms test (notify "This run will not be recorded." ∷ []) m refl v)

  abbrev pub taken : List Mark
  taken = holds true ∷ shows true ∷ []

  abbrev pub given_back : List Mark
  given_back = holds false ∷ shows false ∷ []

  prepare-IsMarked :
      (ms : List Mark) (test : Option ℕ) (c : Clocks) (m : TestController F.R)
      → IsMarked ms test m
      → IsMarked (ms ++ taken) test (prepare c m)
  prepare-IsMarked ms test c m v =
      spoken ms taken test
        (activity (some nothing)
          ∷ stats_reset
          ∷ visual_reset
          ∷ visual_active true
          ∷ running true
          ∷ [])
        (record m { run_id = none; recording = begin_recording c m.recording }) refl
        (record { marked = v.marked; under_way = v.under_way })

  -- A run that begins says that it holds the link, whether or not a server has to answer first.
  pub begin-IsMarked :
      (c : Clocks) (pacing : Pacing) (store_enabled : Bool) (peer : Option Peer) (ms : List Mark)
      (m : TestController F.R)
      → IsMarked ms none m
      → IsMarked
          (ms ++ taken)
          (if store_enabled then none else some m.next_test)
          (begin c pacing store_enabled peer m)
  begin-IsMarked c pacing true peer ms m v =
      subst (IsMarked (ms ++ taken) none) (sym (begin-eq c pacing true peer m v.under_way)) (
        quiet (ms ++ taken) none (opens_run (base_of peer) ∷ []) _ refl
          (prepare-IsMarked ms none c m v))
  begin-IsMarked c pacing false peer ms m v =
      subst (IsMarked (ms ++ taken) (some m.next_test))
        (sym (begin-eq c pacing false peer m v.under_way))
        (start_test-IsMarked (ms ++ taken) none pacing (prepare c m)
          (prepare-IsMarked ms none c m v))

  abbrev Quiet : List (Call F.R) → Type 0
  Quiet cs = marks cs ≡ []

  phase_calls-Quiet : (s : Snapshot F.R) → Quiet (phase_calls s)
  unfolding phase_calls
  phase_calls-Quiet s =
      if_cases Quiet (same_stage s.phase reversing) _ _ (λ _. refl)
        λ _. option_cases Quiet (style_of s.phase) [] _ (λ _. refl) λ y _. refl

  reading_calls-Quiet : (s : Snapshot F.R) → Quiet (reading_calls s)
  unfolding reading_calls
  reading_calls-Quiet s =
      if_cases Quiet (same_stage s.phase reversing) _ _ (λ _. refl)
        λ _. if_cases Quiet (same_stage s.phase latency) _ _ (λ _. refl) λ _. refl

  sampled-Quiet :
      (added : Bool) (cs : List (Call F.R))
      → Quiet cs
      → Quiet ((if added then sampled ∷ [] else []) ++ cs)
  sampled-Quiet true cs h = h
  sampled-Quiet false cs h = h

  apply_snapshot-IsMarked :
      (ms : List Mark) (test : Option ℕ) (c : Clocks) (s : Snapshot F.R) (m : TestController F.R)
      → IsMarked ms test m
      → IsMarked ms test (apply_snapshot c s m)
  unfolding apply_snapshot
  apply_snapshot-IsMarked ms test c s m v =
      let (recording, added) = record_snapshot c s m.recording in
      quiet ms test _ (record m { recording = recording })
        (sampled-Quiet added
          (live (live_down s) (live_up s) ∷ visual_progress s.progress ∷ reading_calls s)
          (reading_calls-Quiet s))
        (record { marked = v.marked; under_way = v.under_way })

  -- A snapshot says again that a run holds the link, when the phase has changed.
  pub on_update-IsMarked :
      (ms : List Mark) (test : Option ℕ) (c : Clocks) (s : Snapshot F.R) (last_phase : Stage)
      (m : TestController F.R)
      → IsMarked ms test m
      → IsMarked ms test (on_update c s (last_phase, m)).1
        ⊎ IsMarked (ms ++ holds true ∷ []) test (on_update c s (last_phase, m)).1
  unfolding on_update
  on_update-IsMarked ms test c s last_phase m v =
      let turned = phase_calls s ++ activity (some (loads s.phase)) ∷ [] in
      let said : marks turned ≡ holds true ∷ [] =
        traced-append marked_by (phase_calls s) (activity (some (loads s.phase)) ∷ [])
        ∙ ap (λ (t : List Mark). t ++ holds true ∷ []) (phase_calls-Quiet s) in
      if_cases
        (λ (p : Stage × TestController F.R).
          IsMarked ms test p.1 ⊎ IsMarked (ms ++ holds true ∷ []) test p.1)
        (same_stage s.phase last_phase) (last_phase, apply_snapshot c s m)
        (s.phase, apply_snapshot c s (calls turned m))
        (λ _. inl (apply_snapshot-IsMarked ms test c s m v))
        λ _. inr (
          apply_snapshot-IsMarked (ms ++ holds true ∷ []) test c s (calls turned m)
            (spoken ms (holds true ∷ []) test turned m said v))

  persist-IsMarked :
      (ms : List Mark) (test : Option ℕ) (peer : Option Peer) (m : TestController F.R)
      → IsMarked ms test m
      → IsMarked ms test (persist peer m)
  unfolding persist
  persist-IsMarked ms test peer m v =
      option_cases (IsMarked ms test) (truthy m.run_id) (record m { run_id = none }) _
        (λ _. record { marked = v.marked; under_way = v.under_way })
        λ run _.
          quiet ms test (closes_run none run (labels_of peer) ∷ []) (record m { run_id = none })
            refl (record { marked = v.marked; under_way = v.under_way })

  -- A run whose test has ended says that it holds the link no longer.
  pub ended-IsMarked :
      (ms : List Mark) (test : Option ℕ) (c : Clocks) (s : Snapshot F.R) (peer : Option Peer)
      (m : TestController F.R)
      → IsMarked ms test m
      → IsMarked (ms ++ given_back) none (ended c s peer m)
  unfolding ended finish
  ended-IsMarked ms test c s peer m v =
      let gave =
        spoken ms given_back none
          (activity none ∷ visual_active false ∷ running false ∷ stats_rest ∷ [])
          (record m { test = none; recording = end_recording c m.recording }) refl
          (record { marked = v.marked; under_way = refl }) in
      let parked =
        quiet (ms ++ given_back) none (visual_park ∷ visual_accent primary ∷ []) _ refl gave in
      if_cases (IsMarked (ms ++ given_back) none) (same_stage s.phase error) _ _
        (λ _. quiet (ms ++ given_back) none (failed_calls s) _ refl parked)
        λ _.
          if_cases (IsMarked (ms ++ given_back) none) (same_stage s.phase aborted) _ _
            (λ _. quiet (ms ++ given_back) none stopped_calls _ refl parked)
            λ _.
              persist-IsMarked (ms ++ given_back) none peer _
                (quiet (ms ++ given_back) none (complete_calls s) _ refl parked)

  pub persisted-IsMarked :
      (ms : List Mark) (test : Option ℕ) (outcome : Settled RunOutcome) (m : TestController F.R)
      → IsMarked ms test m
      → IsMarked ms test (persisted outcome m)
  unfolding persisted
  persisted-IsMarked ms test (gives (stored id)) m v = quiet ms test (saved id ∷ []) m refl v
  persisted-IsMarked ms test (gives not_stored) m v = v
  persisted-IsMarked ms test (throws e) m v = quiet ms test _ m refl v

  pub abort-IsMarked :
      (ms : List Mark) (test : Option ℕ) (m : TestController F.R)
      → IsMarked ms test m
      → IsMarked ms test (abort m)
  unfolding abort
  abort-IsMarked ms test m v =
      option_cases (IsMarked ms test) m.test m _ (λ _. v)
        λ t _. quiet ms test (aborts t ∷ []) m refl v
