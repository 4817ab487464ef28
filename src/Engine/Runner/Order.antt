-- ===== src/Engine/Runner/Order.antt =====
-- web/src/engine/runner.ts, `SpeedTest.run`: the order of the phases that a caller is shown.
use megapet.Common.{
  Bool, Option, none, some, List, [], ◌∷◌, ℕ, zero, suc, ◌≡◌, ◌≤◌, refl, Num, arith, or_else, ◌-◌,
  if_cases,
}
use megapet.Engine.Transfer.{TransferResult}
use megapet.Engine.Runner.{
  Stage, latency, reversing, download, upload, done, aborted, error, idle, Snapshot, Settled, gives,
  throws, Await, Run, Part, Pacing, TestParams, Script, ◌>>>◌, emit, throw_if_aborted, waits,
  sleeps, awaits, LatencyFigures, latency_weight, download_from, download_weight,
}
use megapet.Engine.Runner.Rules.{
  Post, bind-Post, emit-Post, throw_if_aborted-Post, waits-Post, sleeps-Post, Kept, awaits-Steady,
}
use megapet.Engine.Runner.Stages.{
  run, caught, fresh, measured, latency_part, download_part, upload_part, reverse, pause,
  starts_latency, on_sample, has_latency, starts_download, on_download, has_download, starts_upload,
  on_upload, is_done, is_reversing, is_aborted, has_failed, download_options, upload_options,
  chunk_size_for, empty_snapshot,
}

-- The place of a phase in a test: the probes, the reversal for the download, the download, the
-- reversal for the upload, the upload, the end.
abbrev pub stage_place : Stage → Option Stage → ℕ
stage_place idle next = 0
stage_place latency next = 1
stage_place reversing (some upload) = 4
stage_place reversing next = 2
stage_place download next = 3
stage_place upload next = 5
stage_place done next = 6
stage_place aborted next = 6
stage_place error next = 6

module _ {R : Type 0} where
  abbrev pub place : Snapshot R → ℕ
  place s = stage_place s.phase s.next_phase

  abbrev pub newest : List (Snapshot R) → ℕ
  newest [] = 0
  newest (s ∷ rest) = place s

  -- The places never fall, and nothing follows the end.
  abbrev pub Climbs : List (Snapshot R) → Type 0
  Climbs [] = Unit
  Climbs (s ∷ rest) = (newest rest ≤ place s) × (newest rest ≤ 5) × Climbs rest

  abbrev UpTo : ℕ → Run R → Type 0
  UpTo n r = (place r.snapshot ≤ n) × (newest r.emitted ≤ place r.snapshot) × Climbs r.emitted

  -- A test that is over: the last snapshot shown is the one returned, and it is of the last place.
  abbrev pub IsOver : Run R → Type 0
  IsOver r =
      ((rest : List (Snapshot R)) × (r.emitted ≡ r.snapshot ∷ rest))
      × (place r.snapshot ≡ 6)
      × Climbs r.emitted

  abbrev Early : Run R → Type 0
  Early = UpTo 5

  -- A snapshot of a later place.
  UpTo-emit :
      (m n : ℕ) (E : Run R → Type 0) (patch : Snapshot R → Snapshot R) (r : Run R)
      → m ≤ n
      → m ≤ 5
      → place (patch r.snapshot) ≡ n
      → UpTo m r
      → Post (λ _. UpTo n) E (emit patch r)
  UpTo-emit m n E patch r l k e (a, b, c) =
      emit-Post (λ _. UpTo n) E patch r
        (omega (arith, e), omega (arith, e), (omega (arith, e, a, b), omega (arith, a, b), c))

  UpTo-Kept :
      {D : Type 0} (n : ℕ) (patch : D → Snapshot R → Snapshot R)
      → n ≤ 5
      → ((d : D) (s : Snapshot R) → place (patch d s) ≡ place s)
      → Kept (UpTo n) patch
  UpTo-Kept n patch l same d r (a, b, c) =
      let e = same d r.snapshot in
      (omega (arith, e, a), omega (arith, e), (omega (arith, e, b), omega (arith, a, b), c))

  UpTo-emit_same :
      (n : ℕ) (patch : Snapshot R → Snapshot R) (r : Run R)
      → n ≤ 5
      → ((s : Snapshot R) → place (patch s) ≡ place s)
      → UpTo n r
      → Post (λ _. UpTo n) Early (emit patch r)
  UpTo-emit_same n patch r l same h =
      emit-Post (λ _. UpTo n) Early patch r
        (UpTo-Kept n (λ (d : Unit {0}). patch) l (λ _ s. same s) tt r h)

  UpTo-mono : (m n : ℕ) (r : Run R) → m ≤ n → UpTo m r → UpTo n r
  UpTo-mono m n r l (a, b, c) = (omega arith, b, c)

  UpTo-throw_if_aborted :
      (n : ℕ) (r : Run R) → n ≤ 5 → UpTo n r → Post (λ _. UpTo n) Early (throw_if_aborted r)
  UpTo-throw_if_aborted n r l h =
      throw_if_aborted-Post (λ _. UpTo n) Early r (λ _. h) (λ _. UpTo-mono n 5 r l h)

  UpTo-sleeps :
      (n : ℕ) (ms : Option ℕ) (b : Bool) (r : Run R)
      → UpTo n r
      → Post (λ _. UpTo n) Early (sleeps ms b r)
  UpTo-sleeps n ms b r h = sleeps-Post (λ _. UpTo n) Early ms b r h h

  -- A weaker failure.
  Post-Early :
      {A : Type 0} (n : ℕ) (Q : A → Run R → Type 0) (x : Run R × Settled A)
      → n ≤ 5
      → Post Q (UpTo n) x
      → Post Q Early x
  Post-Early n Q (r, gives a) l h = h
  Post-Early n Q (r, throws e) l h = UpTo-mono n 5 r l h

  UpTo-awaits :
      {D A : Type 0} (n : ℕ) (patch : D → Snapshot R → Snapshot R) (a : Await D A) (r : Run R)
      → n ≤ 5
      → ((d : D) (s : Snapshot R) → place (patch d s) ≡ place s)
      → UpTo n r
      → Post (λ _. UpTo n) Early (awaits patch a r)
  UpTo-awaits n patch a r l same h =
      Post-Early n (λ _. UpTo n) (awaits patch a r) l
        (awaits-Steady (UpTo n) patch a r (λ r b k. k) h (UpTo-Kept n patch l same))

  then-UpTo :
      {A B : Type 0} (n : ℕ) (S : B → Run R → Type 0) (p : Part R A) (f : A → Part R B) (r : Run R)
      → Post (λ _. UpTo n) Early (p r)
      → ((a : A) (q : Run R) → UpTo n q → Post S Early (f a q))
      → Post S Early ((p >>> f) r)
  then-UpTo n S p f r h k = bind-Post (λ _. UpTo n) S Early p f r h k

  IsOver-emit :
      (patch : Snapshot R → Snapshot R) (r : Run R)
      → place (patch r.snapshot) ≡ 6
      → UpTo 5 r
      → IsOver (emit patch r).0
  unfolding emit
  IsOver-emit patch r e (a, b, c) =
      ((r.emitted, refl), e, (omega (arith, e, a, b), omega (arith, a, b), c))

module _ ⦃F : Num⦄ where
  UpTo-reverse :
      (m n : ℕ) (ms : Option ℕ) (next : Stage) (progress : F.R) (b : Bool) (r : Run F.R)
      → m ≤ n
      → n ≤ 5
      → stage_place reversing (some next) ≡ n
      → UpTo m r
      → Post (λ _. UpTo n) Early (reverse ms next progress b r)
  UpTo-reverse m n none next progress b r l k e h = UpTo-mono m n r l h
  UpTo-reverse m n (some zero) next progress b r l k e h = UpTo-mono m n r l h
  UpTo-reverse m n (some (suc ms)) next progress b r l k e h =
      then-UpTo n (λ _. UpTo n) _ _ r
        (UpTo-emit m n Early (is_reversing next progress) r l (omega arith) e h)
        λ _ q v.
          then-UpTo n (λ _. UpTo n) (waits b) _ q (waits-Post (λ _. UpTo n) Early b q v)
            λ _ q v. UpTo-throw_if_aborted n q k v

  UpTo-has_latency :
      (p : Pacing) (s : Script F.R) (l : LatencyFigures F.R) (r : Run F.R)
      → UpTo 1 r
      → Post
          (λ _. UpTo 1)
          Early
          ((throw_if_aborted >>> λ _. emit (has_latency l) >>> λ _.
              pause p s.played s.pause_aborts >>> λ _. throw_if_aborted)
            r)
  unfolding pause
  UpTo-has_latency p s l r h =
      then-UpTo 1 (λ _. UpTo 1) _ _ r (UpTo-throw_if_aborted 1 r (omega arith) h)
        λ _ q h.
          then-UpTo 1 (λ _. UpTo 1) _ _ q
            (UpTo-emit_same 1 (has_latency l) q (omega arith) (λ _. refl) h)
            λ _ q h.
              then-UpTo 1 (λ _. UpTo 1) _ _ q
                (UpTo-sleeps 1 (some (or_else p.latency_ms 0 - s.played)) s.pause_aborts q h)
                λ _ q h. UpTo-throw_if_aborted 1 q (omega arith) h

  UpTo-latency_part :
      (p : Pacing) (s : Script F.R) (r : Run F.R)
      → UpTo 0 r
      → Post (λ _. UpTo 1) Early (latency_part p s r)
  unfolding latency_part pause
  UpTo-latency_part p s r h =
      then-UpTo 1 (λ _. UpTo 1) _ _ r
        (UpTo-emit 0 1 Early starts_latency r (omega arith) (omega arith) refl h)
        λ _ q h.
          then-UpTo 1 (λ _. UpTo 1) _ _ q (UpTo-sleeps 1 p.opening_ms s.opening_aborts q h)
            λ _ q h.
              then-UpTo 1 (λ _. UpTo 1) _ _ q
                (UpTo-awaits 1 on_sample s.probes q (omega arith) (λ _ _. refl) h)
                λ l q h. UpTo-has_latency p s l q h

  UpTo-download_part :
      (t : TestParams F.R) (p : Pacing) (s : Script F.R) (r : Run F.R)
      → UpTo 1 r
      → Post (λ _. UpTo 3) Early (download_part t p s r)
  unfolding download_part
  UpTo-download_part t p s r h =
      then-UpTo 2 (λ _. UpTo 3) _ _ r
        (UpTo-reverse 1 2 p.reverse_ms download latency_weight s.first_reverse_aborts r
          (omega arith) (omega arith) refl h)
        λ _ q h.
          then-UpTo 3 (λ _. UpTo 3) _ _ q
            (UpTo-emit 2 3 Early starts_download q (omega arith) (omega arith) refl h)
            λ _ q h.
              then-UpTo 3 (λ _. UpTo 3) _ _ q
                (UpTo-awaits 3 on_download (s.download (download_options t)) q (omega arith)
                  (λ _ _. refl) h)
                λ d q h.
                  then-UpTo 3 (λ _. UpTo 3) _ _ q (UpTo-throw_if_aborted 3 q (omega arith) h)
                    λ _ q h.
                      then-UpTo 3 (λ _. UpTo 3) _ _ q
                        (UpTo-emit_same 3 (has_download d) q (omega arith) (λ _. refl) h) λ _ q h. h

  UpTo-upload_part :
      (t : TestParams F.R) (p : Pacing) (s : Script F.R) (d : TransferResult F.R) (r : Run F.R)
      → UpTo 3 r
      → Post (λ _. IsOver) Early (upload_part t p s d r)
  unfolding upload_part emit
  UpTo-upload_part t p s d r h =
      then-UpTo 4 (λ _. IsOver) _ _ r
        (UpTo-reverse 3 4 p.reverse_ms upload (F.add download_from download_weight)
          s.second_reverse_aborts r (omega arith) (omega arith) refl h)
        λ _ q h.
          then-UpTo 5 (λ _. IsOver) _ _ q
            (UpTo-emit 4 5 Early starts_upload q (omega arith) (omega arith) refl h)
            λ _ q h.
              then-UpTo 5 (λ _. IsOver) _ _ q
                (UpTo-awaits 5 on_upload (s.upload (upload_options t) (chunk_size_for t d.mbps)) q
                  (omega arith) (λ _ _. refl) h)
                λ u q h.
                  then-UpTo 5 (λ _. IsOver) _ _ q (UpTo-throw_if_aborted 5 q (omega arith) h)
                    λ _ q h.
                      emit-Post (λ _. IsOver) Early (is_done u) q (IsOver-emit (is_done u) q refl h)

  measured-IsOver :
      (t : TestParams F.R) (p : Pacing) (s : Script F.R)
      → Post (λ _. IsOver) Early (measured t p s fresh)
  unfolding measured empty_snapshot
  measured-IsOver t p s =
      then-UpTo 1 (λ _. IsOver) _ _ fresh
        (UpTo-latency_part p s fresh (omega arith, omega arith, tt))
        λ _ q h.
          then-UpTo 3 (λ _. IsOver) _ _ q (UpTo-download_part t p s q h)
            λ d q h. UpTo-upload_part t p s d q h

  caught-IsOver : (x : Run F.R × Settled Unit) → Post (λ _. IsOver) Early x → IsOver (caught x)
  unfolding caught
  caught-IsOver (r, gives _) h = h
  caught-IsOver (r, throws e) h =
      if_cases IsOver r.signal_aborted _ _ (λ _. IsOver-emit is_aborted r refl h)
        λ _. IsOver-emit (has_failed e) r refl h

  -- Whatever happens, a test shows the probes, the reversal for the download, the download, the
  -- reversal for the upload, and the upload in this order, never goes back, and ends in exactly one
  -- last snapshot, which it returns: done, aborted or failed.
  pub run-IsOver : (t : TestParams F.R) (p : Pacing) (s : Script F.R) → IsOver (run t p s)
  unfolding run
  run-IsOver t p s = caught-IsOver (measured t p s fresh) (measured-IsOver t p s)
