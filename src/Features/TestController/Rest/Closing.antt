-- ===== src/Features/TestController/Rest/Closing.antt =====
-- web/src/ui/features/test-controller.ts: what a run asks of a server when its test has ended.
use Prim.Native.String.{String}
use megapet.Common.{
  ℕ, ◌≡◌, refl, sym, ap, ◌∙◌, subst, if_cases, option_cases, Bool, true, false, not, ◌&&◌, Option,
  none, List, [], ◌∷◌, ◌++◌, Num, inl, inr,
}
use mathlib.Core.List.{reverse, append-nil}
use megapet.Engine.Monitor.{Clocks}
use megapet.Engine.Runner.{
  Stage, idle, done, aborted, error, Snapshot, Pacing, TestParams, Script, Run, Settled,
}
use megapet.Engine.Runner.Stages.{run}
use megapet.Engine.Runner.Outcomes.{Verdict, run-Verdict}
use megapet.Features.TestController.Recording.{same_stage}
use megapet.Features.TestController.Trace.{
  Request, closes, traced-append, traced-calls, requested_by,
}
use megapet.Features.TestController.{TestController, calls, begin, truthy, ended, finish, persist}
use megapet.Features.TestController.Calls.{
  Peer, closes_run, activity, primary, failed_calls, stopped_calls, complete_calls, labels_of,
  stats_rest, visual_park, visual_active, running, visual_accent,
}
use megapet.Features.TestController.Rest.{
  requests, show_all, opened_if, run_test, asked_if, opened_id, listed, only_if, IsOpen,
  calls-IsOpen,
}
use megapet.Features.TestController.Rest.Showing.{show_all-IsOpen}
use megapet.Features.TestController.Rest.Opening.{started-IsOpen}

module _ ⦃F : Num⦄ where
  persist-requests :
      (id : Option String) (ids : List Request) (peer : Option Peer) (m : TestController F.R)
      → IsOpen id ids m
      → requests (persist peer m).log ≡ ids ++ only_if true id
  unfolding persist
  persist-requests id ids peer m v =
      option_cases (λ (q : TestController F.R). requests q.log ≡ ids ++ only_if true id)
        (truthy m.run_id) (record m { run_id = none }) _
        (λ e.
          v.closed
          ∙ sym (append-nil ids)
          ∙ ap (λ (x : Option String). ids ++ listed x) (sym e ∙ ap truthy v.opened_run))
        λ run e.
          traced-append requested_by m.log (closes_run none run (labels_of peer) ∷ [])
          ∙ ap (λ (t : List Request). t ++ (closes none run ∷ [])) v.closed
          ∙ ap (λ (x : Option String). ids ++ listed x) (sym e ∙ ap truthy v.opened_run)

  abbrev Ends : List Request → Option String → Bool → TestController F.R → Type 0
  Ends ids id kept m = requests m.log ≡ ids ++ only_if kept id

  -- How `finish` ends a run by its last phase.
  finish-requests :
      (id : Option String) (ids : List Request) (s : Snapshot F.R) (peer : Option Peer)
      (m : TestController F.R)
      → IsOpen id ids m
      → Ends ids id
          (not (same_stage s.phase error) && not (same_stage s.phase aborted))
          (finish s peer m)
  unfolding finish
  finish-requests id ids s peer m v =
      let parked = calls (visual_park ∷ visual_accent primary ∷ []) m in
      let parked_open = calls-IsOpen id ids (visual_park ∷ visual_accent primary ∷ []) m refl v in
      let failed = same_stage s.phase error in
      let stopped = same_stage s.phase aborted in
      if_cases (Ends ids id (not failed && not stopped)) failed (calls (failed_calls s) parked) _
        (λ e.
          subst (λ b. Ends ids id (not b && not stopped) (calls (failed_calls s) parked)) (sym e)
            (traced-calls requested_by (failed_calls s) parked refl
              ∙ parked_open.closed
              ∙ sym (append-nil ids)))
        λ e.
          if_cases (Ends ids id (not failed && not stopped)) stopped (calls stopped_calls parked)
            (persist peer (calls (complete_calls s) parked))
            (λ a.
              subst (λ b. Ends ids id (not failed && not b) (calls stopped_calls parked)) (sym a)
                (subst (λ b. Ends ids id (not b && false) (calls stopped_calls parked)) (sym e)
                  (traced-calls requested_by stopped_calls parked refl
                    ∙ parked_open.closed
                    ∙ sym (append-nil ids))))
            λ a.
              subst
                (λ b.
                  Ends ids id (not failed && not b)
                    (persist peer (calls (complete_calls s) parked)))
                (sym a)
                (subst
                  (λ b.
                    Ends ids id (not b && true) (persist peer (calls (complete_calls s) parked)))
                  (sym e)
                  (persist-requests id ids peer _
                    (calls-IsOpen id ids (complete_calls s) parked refl parked_open)))

  ended-requests :
      (id : Option String) (ids : List Request) (c : Clocks) (s : Snapshot F.R) (peer : Option Peer)
      (m : TestController F.R)
      → IsOpen id ids m
      → Ends ids id
          (not (same_stage s.phase error) && not (same_stage s.phase aborted))
          (ended c s peer m)
  unfolding ended
  ended-requests id ids c s peer m v = finish-requests id ids s peer _ (
      calls-IsOpen id ids (activity none ∷ visual_active false ∷ running false ∷ stats_rest ∷ []) _
        refl (record { opened_run = v.opened_run; closed = v.closed }))

  persist-test : (peer : Option Peer) (m : TestController F.R) → (persist peer m).test ≡ m.test
  unfolding persist
  persist-test peer m =
      option_cases (λ (q : TestController F.R). q.test ≡ m.test) (truthy m.run_id)
        (record m { run_id = none }) _ (λ _. refl) λ _ _. refl

  finish-test :
      (s : Snapshot F.R) (peer : Option Peer) (m : TestController F.R)
      → (finish s peer m).test ≡ m.test
  unfolding finish
  finish-test s peer m =
      if_cases (λ (q : TestController F.R). q.test ≡ m.test) (same_stage s.phase error) _ _
        (λ _. refl)
        λ _.
          if_cases (λ (q : TestController F.R). q.test ≡ m.test) (same_stage s.phase aborted) _ _
            (λ _. refl) λ _. persist-test peer _

  ended-test :
      (c : Clocks) (s : Snapshot F.R) (peer : Option Peer) (m : TestController F.R)
      → (ended c s peer m).test ≡ none
  unfolding ended
  ended-test c s peer m = finish-test s peer _

  kept-done :
      (r : Run F.R)
      → Verdict r
      → not (same_stage r.snapshot.phase error) && not (same_stage r.snapshot.phase aborted)
        ≡ same_stage r.snapshot.phase done
  kept-done r v =
      let kept =
        λ (phase : Stage). not (same_stage phase error) && not (same_stage phase aborted) in
      elim v [
        | inl (e, _) ↦ ap kept e ∙ sym (ap (λ (phase : Stage). same_stage phase done) e)
        | inr (inl (e, _)) ↦ ap kept e ∙ sym (ap (λ (phase : Stage). same_stage phase done) e)
        | inr (inr (e, _)) ↦ ap kept e ∙ sym (ap (λ (phase : Stage). same_stage phase done) e)
      ]

  -- A run that starts while no test is under way leaves none under way. Where runs are stored it
  -- asks the chosen server, the peer if there is one, to open a run; and it asks this server, never
  -- the peer, to close the run with the id that was answered, exactly when its test ends as done. A
  -- test that failed or was stopped closes nothing, and neither does one whose run has no id.
  pub run_test-requests :
      (clock : ℕ → Clocks) (pacing : Pacing) (store_enabled : Bool) (answer : Settled String)
      (t : TestParams F.R) (script : Script F.R) (peer : Option Peer) (m : TestController F.R)
      → m.test ≡ none
      → ((run_test clock pacing store_enabled answer t script peer m).test ≡ none)
        × (requests (run_test clock pacing store_enabled answer t script peer m).log
            ≡ (requests m.log ++ asked_if store_enabled peer)
              ++ only_if
                  (same_stage (run t pacing script).snapshot.phase done)
                  (opened_id store_enabled answer))
  unfolding run_test
  run_test-requests clock pacing store_enabled answer t script peer m h =
      let test = run t pacing script in
      let id = opened_id store_enabled answer in
      let ids = requests m.log ++ asked_if store_enabled peer in
      let started =
        opened_if store_enabled pacing answer (begin (clock 0) pacing store_enabled peer m) in
      let shown = (show_all clock 2 (reverse test.emitted) (idle, started)).1 in
      let shown_open =
        show_all-IsOpen id ids clock 2 (reverse test.emitted) idle started
          (started-IsOpen (clock 0) pacing store_enabled answer peer m h) in
      (
        ended-test (clock 1) test.snapshot peer shown,
        ended-requests id ids (clock 1) test.snapshot peer shown shown_open
            ∙ ap (λ b. ids ++ only_if b id) (kept-done test (run-Verdict t pacing script)),
      )
