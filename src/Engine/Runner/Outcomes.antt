-- ===== src/Engine/Runner/Outcomes.antt =====
-- web/src/engine/runner.ts, `SpeedTest.run`: how a test ends, and what it answers.
use megapet.Common.{true, false, ◌≡◌, refl, Num, inl, inr, if_cases, ◌⊎◌}
use megapet.Engine.Transfer.{TransferResult}
use megapet.Engine.Runner.{
  done, aborted, error, Settled, gives, throws, Run, Part, Pacing, TestParams, Script, ◌>>>◌, emit,
}
use megapet.Engine.Runner.Rules.{Post, bind-Post, emit-Post, throw_if_aborted-Post}
use megapet.Engine.Runner.Stages.{run, caught, fresh, measured, upload_part, is_done}

module _ {R : Type 0} where
  -- The signal decides what a test that did not finish is called.
  abbrev pub Verdict : Run R → Type 0
  Verdict r =
      ((r.snapshot.phase ≡ done) × (r.signal_aborted ≡ false))
      ⊎ ((r.snapshot.phase ≡ aborted) × (r.signal_aborted ≡ true))
      ⊎ ((r.snapshot.phase ≡ error) × (r.signal_aborted ≡ false))

  abbrev Any : Run R → Type 0
  Any r = Unit

  Post-Any : {A : Type 0} (x : Run R × Settled A) → Post (λ _. Any) Any x
  Post-Any (r, gives a) = tt
  Post-Any (r, throws e) = tt

  abbrev Finished : Run R → Type 0
  Finished r = (r.snapshot.phase ≡ done) × (r.signal_aborted ≡ false)

  then-Any :
      {A B : Type 0} (S : B → Run R → Type 0) (p : Part R A) (f : A → Part R B) (r : Run R)
      → ((a : A) (q : Run R) → Post S Any (f a q))
      → Post S Any ((p >>> f) r)
  then-Any S p f r h = bind-Post (λ _. Any) S Any p f r (Post-Any (p r)) λ a q _. h a q

module _ ⦃F : Num⦄ where
  upload_part-Finished :
      (t : TestParams F.R) (p : Pacing) (s : Script F.R) (d : TransferResult F.R) (r : Run F.R)
      → Post (λ _. Finished) Any (upload_part t p s d r)
  unfolding upload_part
  upload_part-Finished t p s d r =
      then-Any (λ _. Finished) _ _ r
        λ _ q.
          then-Any (λ _. Finished) _ _ q
            λ _ q.
              then-Any (λ _. Finished) _ _ q
                λ u q.
                  bind-Post (λ _ q. q.signal_aborted ≡ false) (λ _. Finished) Any _ _ q
                    (throw_if_aborted-Post (λ _ q. q.signal_aborted ≡ false) Any q (λ e. e) λ _. tt)
                    λ _ q e. emit-Post (λ _. Finished) Any (is_done u) q (refl, e)

  measured-Finished :
      (t : TestParams F.R) (p : Pacing) (s : Script F.R)
      → Post (λ _. Finished) Any (measured t p s fresh)
  unfolding measured
  measured-Finished t p s =
      then-Any (λ _. Finished) _ _ fresh
        λ _ q. then-Any (λ _. Finished) _ _ q λ d q. upload_part-Finished t p s d q

  caught-Verdict : (x : Run F.R × Settled Unit) → Post (λ _. Finished) Any x → Verdict (caught x)
  unfolding caught emit
  caught-Verdict (r, gives _) h = inl h
  caught-Verdict (r, throws e) h =
      if_cases Verdict r.signal_aborted _ _ (λ a. inr (inl (refl, a))) λ a. inr (inr (refl, a))

  -- A test is done only if the caller never aborted it; if the caller did, it is aborted, whatever
  -- was thrown; and it has failed only if something was thrown without an abort.
  pub run-Verdict : (t : TestParams F.R) (p : Pacing) (s : Script F.R) → Verdict (run t p s)
  unfolding run
  run-Verdict t p s = caught-Verdict (measured t p s fresh) (measured-Finished t p s)
