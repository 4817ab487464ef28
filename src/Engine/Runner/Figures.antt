-- ===== src/Engine/Runner/Figures.antt =====
-- web/src/engine/runner.ts, `SpeedTest.run`: what a test answers that nothing disturbs.
use megapet.Common.{
  Bool, false, ◌||◌, Option, none, some, ℕ, zero, suc, ◌≡◌, refl, sym, ap, subst, Num, arith,
  or_else, ◌-◌,
}
use megapet.Engine.Transfer.{TransferResult}
use megapet.Engine.Runner.{
  Stage, download, upload, done, Snapshot, Settled, gives, throws, Await, Run, Part, Pacing,
  TestParams, Script, ◌>>>◌, emit, throw_if_aborted, waits, sleeps, awaits, LatencyFigures,
  latency_weight, download_from, download_weight,
}
use megapet.Engine.Runner.Rules.{
  Post, bind-Post, emit-Post, throw_if_aborted-Post, waits-Post, sleeps-Post, awaits-Post,
}
use megapet.Engine.Runner.Stages.{
  run, caught, fresh, measured, latency_part, download_part, upload_part, reverse, pause,
  starts_latency, on_sample, has_latency, starts_download, on_download, has_download, starts_upload,
  on_upload, is_done, is_reversing, download_options, upload_options, chunk_size_for,
}

module _ {R : Type 0} where
  -- A test that nobody aborts: a property of its snapshots.
  abbrev Calm : (Snapshot R → Type 0) → Run R → Type 0
  Calm P r = (r.signal_aborted ≡ false) × P r.snapshot

  abbrev Never : Run R → Type 0
  Never r = ⊥

  Calm-emit :
      (P Q : Snapshot R → Type 0) (patch : Snapshot R → Snapshot R) (r : Run R)
      → (P r.snapshot → Q (patch r.snapshot))
      → Calm P r
      → Post (λ _. Calm Q) Never (emit patch r)
  Calm-emit P Q patch r f (a, h) = emit-Post (λ _. Calm Q) Never patch r (a, f h)

  Calm-throw_if_aborted :
      (P : Snapshot R → Type 0) (r : Run R)
      → Calm P r
      → Post (λ _. Calm P) Never (throw_if_aborted r)
  Calm-throw_if_aborted P r h =
      throw_if_aborted-Post (λ _. Calm P) Never r (λ _. h) λ e. absurd (ground (arith, h.0))

  Calm-waits :
      (P : Snapshot R → Type 0) (b : Bool) (r : Run R)
      → b ≡ false
      → Calm P r
      → Post (λ _. Calm P) Never (waits b r)
  Calm-waits P b r e (a, h) = waits-Post (λ _. Calm P) Never b r (ground arith, h)

  Calm-sleeps :
      (P : Snapshot R → Type 0) (ms : Option ℕ) (b : Bool) (r : Run R)
      → b ≡ false
      → Calm P r
      → Post (λ _. Calm P) Never (sleeps ms b r)
  Calm-sleeps P ms b r e (a, h) = sleeps-Post (λ _. Calm P) Never ms b r (a, h) (ground arith, h)

  Calm-awaits :
      {D A : Type 0} (P : Snapshot R → Type 0) (patch : D → Snapshot R → Snapshot R) (a : Await D A)
      (x : A) (r : Run R)
      → a.aborts ≡ false
      → a.settles ≡ gives x
      → ((d : D) (s : Snapshot R) → P s → P (patch d s))
      → Calm P r
      → Post (λ y q. (y ≡ x) × Calm P q) Never (awaits patch a r)
  Calm-awaits P patch a x r e g k h =
      awaits-Post (Calm P) (λ y q. (y ≡ x) × Calm P q) Never patch a r h
        (λ d q (b, v). (b, k d q.snapshot v))
        λ q (b, v).
          subst
            (λ z.
              Post (λ y q. (y ≡ x) × Calm P q) Never
                (record q { signal_aborted = q.signal_aborted || a.aborts }, z))
            (sym g) (refl, (ground arith, v))

  then-Calm :
      {A B : Type 0} (P : Snapshot R → Type 0) (S : B → Run R → Type 0) (p : Part R A)
      (f : A → Part R B) (r : Run R)
      → Post (λ _. Calm P) Never (p r)
      → ((a : A) (q : Run R) → Calm P q → Post S Never (f a q))
      → Post S Never ((p >>> f) r)
  then-Calm P S p f r h k = bind-Post (λ _. Calm P) S Never p f r h k

-- Nobody aborts, and every await settles with a value.
pub record IsUndisturbed ⦃F : Num⦄ (t : TestParams F.R) (s : Script F.R) (l : LatencyFigures F.R)
    (d u : TransferResult F.R) : Type 0 where
  pub opening : s.opening_aborts ≡ false
  pub probed : s.probes.settles ≡ gives l
  pub probes_kept : s.probes.aborts ≡ false
  pub paused : s.pause_aborts ≡ false
  pub first_reverse : s.first_reverse_aborts ≡ false
  pub downloaded : (s.download (download_options t)).settles ≡ gives d
  pub download_kept : (s.download (download_options t)).aborts ≡ false
  pub second_reverse : s.second_reverse_aborts ≡ false
  pub uploaded : (s.upload (upload_options t) (chunk_size_for t d.mbps)).settles ≡ gives u
  pub upload_kept : (s.upload (upload_options t) (chunk_size_for t d.mbps)).aborts ≡ false

module _ ⦃F : Num⦄ where
  abbrev pub HasPings : LatencyFigures F.R → Snapshot F.R → Type 0
  HasPings l s =
      (s.ping_ms ≡ l.min)
      × (s.ping_min_ms ≡ l.min)
      × (s.ping_max_ms ≡ l.max)
      × (s.jitter_ms ≡ l.jitter)

  abbrev pub HasDownload : LatencyFigures F.R → TransferResult F.R → Snapshot F.R → Type 0
  HasDownload l d s = (s.download_mbps ≡ d.mbps) × (s.download_bytes ≡ d.total_bytes) × HasPings l s

  abbrev pub HasFigures :
      LatencyFigures F.R → TransferResult F.R → TransferResult F.R → Snapshot F.R → Type 0
  HasFigures l d u s =
      (s.phase ≡ done)
      × (s.progress ≡ F.of_ℕ 1)
      × (s.upload_mbps ≡ u.mbps)
      × (s.upload_bytes ≡ u.total_bytes)
      × (s.live_mbps ≡ u.mbps)
      × HasDownload l d s

  abbrev Downloaded :
      LatencyFigures F.R → TransferResult F.R → TransferResult F.R → Run F.R → Type 0
  Downloaded l d y q = (y ≡ d) × Calm (HasDownload l d) q

  abbrev Always : Snapshot F.R → Type 0
  Always s = Unit

  Calm-reverse :
      (P : Snapshot F.R → Type 0) (ms : Option ℕ) (next : Stage) (progress : F.R) (b : Bool)
      (r : Run F.R)
      → b ≡ false
      → ((s : Snapshot F.R) → P s → P (is_reversing next progress s))
      → Calm P r
      → Post (λ _. Calm P) Never (reverse ms next progress b r)
  Calm-reverse P none next progress b r e k h = h
  Calm-reverse P (some zero) next progress b r e k h = h
  Calm-reverse P (some (suc ms)) next progress b r e k h =
      then-Calm P (λ _. Calm P) _ _ r
        (Calm-emit P P (is_reversing next progress) r (k r.snapshot) h)
        λ _ q h.
          then-Calm P (λ _. Calm P) (waits b) _ q (Calm-waits P b q e h)
            λ _ q h. Calm-throw_if_aborted P q h

  latency_part-Calm :
      (t : TestParams F.R) (p : Pacing) (s : Script F.R) (l : LatencyFigures F.R)
      (d u : TransferResult F.R) (r : Run F.R)
      → IsUndisturbed t s l d u
      → Calm Always r
      → Post (λ _. Calm (HasPings l)) Never (latency_part p s r)
  unfolding latency_part pause
  latency_part-Calm t p s l d u r v h =
      then-Calm Always (λ _. Calm (HasPings l)) _ _ r
        (Calm-emit Always Always starts_latency r (λ _. tt) h)
        λ _ q h.
          then-Calm Always (λ _. Calm (HasPings l)) _ _ q
            (Calm-sleeps Always p.opening_ms s.opening_aborts q v.opening h)
            λ _ q h.
              bind-Post (λ y q. (y ≡ l) × Calm Always q) (λ _. Calm (HasPings l)) Never _ _ q
                (Calm-awaits Always on_sample s.probes l q v.probes_kept v.probed (λ _ _ _. tt) h)
                λ y q (e, h).
                  then-Calm Always (λ _. Calm (HasPings l)) _ _ q (Calm-throw_if_aborted Always q h)
                    λ _ q h.
                      then-Calm (HasPings l) (λ _. Calm (HasPings l)) _ _ q
                        (Calm-emit Always (HasPings l) (has_latency y) q
                          (λ _. (
                            ap (λ z. z.min) e,
                            ap (λ z. z.min) e,
                            ap (λ z. z.max) e,
                            ap (λ z. z.jitter) e,
                          ))
                          h)
                        λ _ q h.
                          then-Calm (HasPings l) (λ _. Calm (HasPings l)) _ _ q
                            (Calm-sleeps (HasPings l) (some (or_else p.latency_ms 0 - s.played))
                              s.pause_aborts q v.paused h)
                            λ _ q h. Calm-throw_if_aborted (HasPings l) q h

  download_part-Calm :
      (t : TestParams F.R) (p : Pacing) (s : Script F.R) (l : LatencyFigures F.R)
      (d u : TransferResult F.R) (r : Run F.R)
      → IsUndisturbed t s l d u
      → Calm (HasPings l) r
      → Post (λ y q. (y ≡ d) × Calm (HasDownload l d) q) Never (download_part t p s r)
  unfolding download_part
  download_part-Calm t p s l d u r v h =
      then-Calm (HasPings l) (Downloaded l d) _ _ r
        (Calm-reverse (HasPings l) p.reverse_ms download latency_weight s.first_reverse_aborts r
          v.first_reverse (λ _ k. k) h)
        λ _ q h.
          then-Calm (HasPings l) (Downloaded l d) _ _ q
            (Calm-emit (HasPings l) (HasPings l) starts_download q (λ k. k) h)
            λ _ q h.
              bind-Post (λ y q. (y ≡ d) × Calm (HasPings l) q) (Downloaded l d) Never _ _ q
                (Calm-awaits (HasPings l) on_download (s.download (download_options t)) d q
                  v.download_kept v.downloaded (λ _ _ k. k) h)
                λ y q (e, h).
                  then-Calm (HasPings l) (Downloaded l d) _ _ q
                    (Calm-throw_if_aborted (HasPings l) q h)
                    λ _ q h.
                      then-Calm (HasDownload l d) (Downloaded l d) _ _ q
                        (Calm-emit (HasPings l) (HasDownload l d) (has_download y) q
                          (λ k. (ap (λ z. z.mbps) e, ap (λ z. z.total_bytes) e, k)) h)
                        λ _ q h. (e, h)

  upload_part-Calm :
      (t : TestParams F.R) (p : Pacing) (s : Script F.R) (l : LatencyFigures F.R)
      (d u : TransferResult F.R) (r : Run F.R)
      → IsUndisturbed t s l d u
      → Calm (HasDownload l d) r
      → Post (λ _. Calm (HasFigures l d u)) Never (upload_part t p s d r)
  unfolding upload_part
  upload_part-Calm t p s l d u r v h =
      let P = HasDownload l d in
      let Q : Unit → Run F.R → Type 0 = λ _. Calm (HasFigures l d u) in
      then-Calm P Q _ _ r
        (Calm-reverse P p.reverse_ms upload (F.add download_from download_weight)
          s.second_reverse_aborts r v.second_reverse (λ _ k. k) h)
        λ _ q h. then-Calm P Q _ _ q (Calm-emit P P starts_upload q (λ k. k) h) λ _ q h.
          bind-Post (λ y q. (y ≡ u) × Calm P q) Q Never _ _ q
            (Calm-awaits P on_upload (s.upload (upload_options t) (chunk_size_for t d.mbps)) u q
              v.upload_kept v.uploaded (λ _ _ k. k) h)
            λ y q (e, h). then-Calm P Q _ _ q (Calm-throw_if_aborted P q h) λ _ q h.
              Calm-emit P (HasFigures l d u) (is_done y) q
                (λ k. (
                  refl,
                  refl,
                  ap (λ z. z.mbps) e,
                  ap (λ z. z.total_bytes) e,
                  ap (λ z. z.mbps) e,
                  k,
                ))
                h

  measured-Calm :
      (t : TestParams F.R) (p : Pacing) (s : Script F.R) (l : LatencyFigures F.R)
      (d u : TransferResult F.R)
      → IsUndisturbed t s l d u
      → Post (λ _. Calm (HasFigures l d u)) Never (measured t p s fresh)
  unfolding measured
  measured-Calm t p s l d u v =
      let Q : Unit → Run F.R → Type 0 = λ _. Calm (HasFigures l d u) in
      then-Calm (HasPings l) Q _ _ fresh (latency_part-Calm t p s l d u fresh v (refl, tt)) λ _ q h.
        bind-Post (Downloaded l d) Q Never _ _ q (download_part-Calm t p s l d u q v h)
          λ y q (e, h).
            subst (λ z. Post Q Never (upload_part t p s z q)) (sym e)
              (upload_part-Calm t p s l d u q v h)

  caught-Calm :
      (P : Snapshot F.R → Type 0) (x : Run F.R × Settled Unit)
      → Post (λ _. Calm P) Never x
      → P (caught x).snapshot
  unfolding caught
  caught-Calm P (r, gives _) h = h.1
  caught-Calm P (r, throws e) h = absurd h

  -- A test that nobody aborts and in which every measurement gives a value is done, and its last
  -- snapshot has the fastest round trip as the ping, the spread and the jitter of the probes, the
  -- rate and all bytes of the download, and those of the upload that was asked for with the chunk
  -- size that fits the download's rate.
  pub run-HasFigures :
      (t : TestParams F.R) (p : Pacing) (s : Script F.R) (l : LatencyFigures F.R)
      (d u : TransferResult F.R)
      → IsUndisturbed t s l d u
      → HasFigures l d u (run t p s).snapshot
  unfolding run
  run-HasFigures t p s l d u v =
      caught-Calm (HasFigures l d u) (measured t p s fresh) (measured-Calm t p s l d u v)
