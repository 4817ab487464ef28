-- ===== src/Features/TestController/Reentry.antt =====
-- web/src/ui/features/test-controller.ts: a second run begun while the server has not yet answered.
use Prim.Native.String.{String}
use megapet.Common.{
  ℕ, ◌+◌, ◌≡◌, refl, sym, ap, ◌∙◌, subst, true, Option, none, some, List, [], ◌∷◌, ◌++◌, Num,
}
use mathlib.Core.List.{append_assoc}
use megapet.Engine.Monitor.{Clocks}
use megapet.Engine.Runner.{Pacing, Settled, gives, throws}
use megapet.Features.TestController.Trace.{traced, traced-append, traced-calls, started_by}
use megapet.Features.TestController.Rest.Opening.{begin-eq}
use megapet.Features.TestController.{
  TestController, calls, prepare, start_test, opened, begin, abort,
}
use megapet.Features.TestController.Calls.{
  Peer, base_of, starts, opens_run, notify, aborts, activity, nothing, stats_reset, visual_reset,
  visual_active, running,
}

module _ ⦃F : Num⦄ where
  -- Two runs begun one after the other, and the server's answers to both.
  abbrev pub begun_twice :
      Clocks
      → Clocks
      → Pacing
      → Option Peer
      → Settled String
      → Settled String
      → TestController F.R
      → TestController F.R
  begun_twice c d pacing peer first second m =
      opened pacing second
        (opened pacing first (begin d pacing true peer (begin c pacing true peer m)))

  record IsStarted (tests : List ℕ) (test : Option ℕ) (next : ℕ) (m : TestController F.R)
      : Type 0 where
    pub started : traced started_by m.log ≡ tests
    pub under_way : m.test ≡ test
    pub numbered : m.next_test ≡ next

  start_test-IsStarted :
      (tests : List ℕ) (test : Option ℕ) (next : ℕ) (pacing : Pacing) (m : TestController F.R)
      → IsStarted tests test next m
      → IsStarted (tests ++ next ∷ []) (some next) (next + 1) (start_test pacing m)
  unfolding start_test
  start_test-IsStarted tests test next pacing m v = record {
    started =
        traced-append started_by m.log (starts m.next_test pacing m.run_id ∷ [])
        ∙ ap (λ (t : List ℕ). t ++ m.next_test ∷ []) v.started
        ∙ ap (λ (n : ℕ). tests ++ n ∷ []) v.numbered;
    under_way = ap some v.numbered;
    numbered = ap (λ (n : ℕ). n + 1) v.numbered;
  }

  opened-IsStarted :
      (tests : List ℕ) (test : Option ℕ) (next : ℕ) (pacing : Pacing) (answer : Settled String)
      (m : TestController F.R)
      → IsStarted tests test next m
      → IsStarted (tests ++ next ∷ []) (some next) (next + 1) (opened pacing answer m)
  unfolding opened
  opened-IsStarted tests test next pacing (gives id) m v =
      start_test-IsStarted tests test next pacing _
        (record { started = v.started; under_way = v.under_way; numbered = v.numbered })
  opened-IsStarted tests test next pacing (throws e) m v =
      start_test-IsStarted tests test next pacing _ (record {
        started =
            traced-calls started_by (notify "This run will not be recorded." ∷ []) m refl
            ∙ v.started;
        under_way = v.under_way;
        numbered = v.numbered;
      })

  begin-IsStarted :
      (tests : List ℕ) (next : ℕ) (c : Clocks) (pacing : Pacing) (peer : Option Peer)
      (m : TestController F.R)
      → IsStarted tests none next m
      → IsStarted tests none next (begin c pacing true peer m)
  begin-IsStarted tests next c pacing peer m v =
      subst (IsStarted tests none next) (sym (begin-eq c pacing true peer m v.under_way)) (record {
        started =
            traced-calls started_by (opens_run (base_of peer) ∷ []) (prepare c m) refl
            ∙ traced-calls started_by
                (activity (some nothing)
                  ∷ stats_reset
                  ∷ visual_reset
                  ∷ visual_active true
                  ∷ running true
                  ∷ [])
                m refl
            ∙ v.started;
        under_way = v.under_way;
        numbered = v.numbered;
      })

  abort-under_way :
      (t : ℕ) (m : TestController F.R) → m.test ≡ some t → abort m ≡ calls (aborts t ∷ []) m
  unfolding abort
  abort-under_way t m h =
      ap (λ (x : Option ℕ). elim x [ none ↦ m | some n ↦ calls (aborts n ∷ []) m ]) h

  -- A run that is asked for while the first still waits for the server to answer is not refused: both
  -- answers start a test, whatever they are, only the second test is held as the one under way, and
  -- an abort then asks the second test only.
  pub begun_twice-starts :
      (c d : Clocks) (pacing : Pacing) (peer : Option Peer) (first second : Settled String)
      (m : TestController F.R)
      → m.test ≡ none
      → (traced started_by (begun_twice c d pacing peer first second m).log
          ≡ traced started_by m.log ++ m.next_test ∷ (m.next_test + 1) ∷ [])
        × ((begun_twice c d pacing peer first second m).test ≡ some (m.next_test + 1))
        × (abort (begun_twice c d pacing peer first second m)
            ≡ calls (aborts (m.next_test + 1) ∷ []) (begun_twice c d pacing peer first second m))
  begun_twice-starts c d pacing peer first second m h =
      let n = m.next_test in
      let tests = traced started_by m.log in
      let both = opened-IsStarted (tests ++ n ∷ []) (some n) (n + 1) pacing second _ (
        opened-IsStarted tests none n pacing first _ (
          begin-IsStarted tests n d pacing peer _ (
            begin-IsStarted tests n c pacing peer m
              (record { started = refl; under_way = h; numbered = refl })))) in
      (
        both.started ∙ append_assoc tests (n ∷ []) ((n + 1) ∷ []),
        both.under_way,
        abort-under_way (n + 1) _ both.under_way,
      )
