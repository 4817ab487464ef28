-- ===== src/Engine/Monitor/Timeline.antt =====
-- monitor.ts: the timeline of a session, across pauses.
use megapet.Common.{
  Bool, ℕ, ◌≤◌, subst, sym, ◌-◌, ltb, if◌then◌else◌, last?, none, some, List, [], ◌∷◌, ◌≡◌, refl,
  Num, arith, ◌∙◌, if_cases,
}
use megapet.Engine.Transfer.{TransferTick}
use megapet.Engine.Monitor.Legs
use megapet.Engine.Monitor.{
  Monitor, Directions, Clocks, Key, down, up, Event, starts, sets, stops, clears, fires, ticks,
  fails, ends, leg_resumes, session_resumes, step, start, stop, set_directions, turn_down, turn_up,
  run_leg, emit, sample, settle_if_stopped, turn_down, turn_up, open_session, conclude,
  clear_history, leg_tick, leg_fails, leg_ends, remove, Thrown,
}
use megapet.Engine.Series.{SeriesPoint, add, clear}
use megapet.Engine.Series.Compact.{last_t}
use megapet.Engine.Series.Validity.{IsValid, add-IsValid_step, clear-IsValid}
use megapet.Engine.Monitor.{session_clock, elapsed_ms, last_sample}

module _ ⦃F : Num⦄ where
  -- The history is a valid series, `time` was read no earlier than the session's start, and the
  -- session's clock at that time has reached the newest point.
  pub record OnTime (time : ℕ) (m : Monitor F.R) : Type 0 where
    pub valid : IsValid m.series
    pub begun : m.started_at ≤ time
    pub reached : last_t 0 m.series.points ≤ session_clock time m

  -- The fields that the timeline depends on.
  abbrev Kept : Monitor F.R → Monitor F.R → Type 0
  Kept m m' = (m'.series ≡ m.series) × (m'.started_at ≡ m.started_at) × (m'.time_base ≡ m.time_base)

  Kept-OnTime :
      (time now : ℕ) (m m' : Monitor F.R) → time ≤ now → Kept m m' → OnTime time m → OnTime now m'
  Kept-OnTime time now m m' h (s, a, b) v = record {
    valid = subst IsValid (sym s) v.valid;
    begun = omega (arith, v.begun);
    reached = rw (s, a, b) (omega (arith, v.reached, v.begun));
  }

  emit-Kept : (now : ℕ) (m : Monitor F.R) → Kept m (emit now m)
  unfolding emit
  emit-Kept now m = ground arith

  settle-Kept : (m : Monitor F.R) → Kept m (settle_if_stopped m)
  unfolding settle_if_stopped
  settle-Kept m = ground arith

  stop-Kept : (m : Monitor F.R) → Kept m (stop m)
  unfolding stop settle_if_stopped
  stop-Kept m = ground arith

  run_leg-Kept : (k : Key) (m : Monitor F.R) → Kept m (run_leg k m)
  unfolding run_leg
  run_leg-Kept down m = ground arith
  run_leg-Kept up m = ground arith

  turn_down-Kept : (b : Bool) (m : Monitor F.R) → Kept m (turn_down b m)
  unfolding turn_down
  turn_down-Kept b m = ground (arith, run_leg-Kept down m)

  turn_up-Kept : (b : Bool) (m : Monitor F.R) → Kept m (turn_up b m)
  unfolding turn_up
  turn_up-Kept b m = ground (arith, run_leg-Kept up m)

  set_directions-Kept :
      (now : ℕ) (d : Directions) (m : Monitor F.R) → Kept m (set_directions now d m)
  unfolding set_directions
  set_directions-Kept now d m = ground (
    arith,
    turn_down-Kept d.down m,
    turn_up-Kept d.up (turn_down d.down m),
    emit-Kept now (turn_up d.up (turn_down d.down m)),
  )

  leg_tick-Kept :
      (now : ℕ) (k : Key) (id : ℕ) (t : TransferTick F.R) (m : Monitor F.R)
      → Kept m (leg_tick now k id t m)
  unfolding leg_tick emit Legs.on_tick
  leg_tick-Kept now down id t m = ground arith
  leg_tick-Kept now up id t m = ground arith

  leg_fails-Kept : (k : Key) (id : ℕ) (e : Thrown) (m : Monitor F.R) → Kept m (leg_fails k id e m)
  unfolding leg_fails stop settle_if_stopped
  leg_fails-Kept k id e m = ground arith

  abbrev reading : Clocks → Monitor F.R → SeriesPoint F.R
  reading c m = record {
    t = session_clock c.now m;
    down = Legs.live_mbps m.legs_down;
    up = Legs.live_mbps m.legs_up;
  }

  leg_ends-Kept : (k : Key) (id : ℕ) (m : Monitor F.R) → Kept m (leg_ends k id m)
  unfolding leg_ends
  leg_ends-Kept down id m = (refl, refl, refl)
  leg_ends-Kept up id m = (refl, refl, refl)

  -- A sample is taken at the session's clock, and added to the history.
  sample-series :
      (c : Clocks) (m : Monitor F.R)
      → ((sample c m).series ≡ add (reading c m) c.date c.now m.series)
        × ((sample c m).started_at ≡ m.started_at)
        × ((sample c m).time_base ≡ m.time_base)
  unfolding sample emit
  sample-series c m = ground arith

  sample-OnTime :
      (time : ℕ) (c : Clocks) (m : Monitor F.R)
      → time ≤ c.now
      → OnTime time m
      → OnTime c.now (sample c m)
  sample-OnTime time c m h v =
      let (s, a, b) = sample-series c m in
      let (w, k) =
        add-IsValid_step (reading c m) c.date c.now m.series (omega (arith, v.reached, v.begun))
          v.valid in
      record {
        valid = subst IsValid (sym s) w;
        begun = omega (arith, v.begun);
        reached = rw (s, a, b) k;
      }

  last_t-last? :
      (d : ℕ) (ps : List (SeriesPoint F.R))
      → last_t d ps ≡ elim (last? ps) [ none ↦ d | some p ↦ p.t ]
  last_t-last? d [] = refl
  last_t-last? d (p ∷ []) = refl
  last_t-last? d (p ∷ q ∷ ps) = last_t-some p.t q ps ∙ last_t-last? d (q ∷ ps)
    where
      last_t-some :
          (e : ℕ) (q : SeriesPoint F.R) (ps : List (SeriesPoint F.R))
          → last_t e (q ∷ ps) ≡ last_t d (q ∷ ps)
      last_t-some e q ps = refl

  open_session-OnTime :
      (time : ℕ) (c : Clocks) (m : Monitor F.R)
      → time ≤ c.now
      → OnTime time m
      → OnTime c.now (open_session c m)
  unfolding open_session
  open_session-OnTime time c m h v = record {
    valid = v.valid;
    begun = omega arith;
    reached = ground (arith, last_t-last? 0 m.series.points);
  }

  start-OnTime :
      (time : ℕ) (c : Clocks) (d : Directions) (m : Monitor F.R)
      → time ≤ c.now
      → OnTime time m
      → OnTime c.now (start c d m)
  unfolding start
  start-OnTime time c d m h v =
      let opened = open_session c m in
      let w = open_session-OnTime time c m h v in
      if_cases (OnTime c.now) m.running m _ (λ _. Kept-OnTime time c.now m m h (refl, refl, refl) v)
        λ _.
          if_cases (OnTime c.now) d.up _ _
            (λ _. Kept-OnTime c.now c.now _ _ (omega arith) (run_leg-Kept up _) (started opened w))
            (λ _. started opened w)
    where
      started :
          (o : Monitor F.R) → OnTime c.now o → OnTime c.now (if d.down then run_leg down o else o)
      started o w =
          if_cases (OnTime c.now) d.down _ o
            (λ _. Kept-OnTime c.now c.now o _ (omega arith) (run_leg-Kept down o) w) (λ _. w)

  clear_history-OnTime :
      (time now : ℕ) (m : Monitor F.R) → time ≤ now → OnTime time m → OnTime now (clear_history m)
  unfolding clear_history clear
  clear_history-OnTime time now m h v =
      if_cases (OnTime now) m.running m _ (λ _. Kept-OnTime time now m m h (refl, refl, refl) v)
        λ _. record {
          valid = unfold clear in clear-IsValid m.series v.valid;
          begun = omega (arith, v.begun);
          reached = omega arith;
        }

  conclude-OnTime :
      (time : ℕ) (c : Clocks) (m : Monitor F.R)
      → time ≤ c.now
      → OnTime time m
      → OnTime c.now (conclude c m)
  unfolding conclude
  conclude-OnTime time c m h v =
      let quiet = record m {
        timers = elim m.sampler [ none ↦ m.timers | some t ↦ remove t m.timers ];
        sampler = none;
      } in
      let w =
        sample-OnTime time c quiet h
          (Kept-OnTime time time m quiet (omega arith) (refl, refl, refl) v) in
      let x =
        Kept-OnTime c.now c.now (sample c quiet) (emit c.now (sample c quiet)) (omega arith)
          (emit-Kept c.now (sample c quiet)) w in
      record { valid = x.valid; begun = x.begun; reached = x.reached }

  -- In every event that is no earlier than `time` the history stays a valid series with
  -- timestamps that never fall, and the session's clock stays at or past the newest point: across
  -- stops, resumed sessions and cleared histories.
  pub step-OnTime :
      (time : ℕ) (c : Clocks) (e : Event F.R) (m : Monitor F.R)
      → time ≤ c.now
      → OnTime time m
      → OnTime c.now (step c e m)
  unfolding step
  step-OnTime time c (starts d) m h v = start-OnTime time c d m h v
  step-OnTime time c (sets d) m h v = Kept-OnTime time c.now m _ h (set_directions-Kept c.now d m) v
  step-OnTime time c stops m h v = Kept-OnTime time c.now m _ h (stop-Kept m) v
  step-OnTime time c clears m h v = clear_history-OnTime time c.now m h v
  step-OnTime time c (fires t) m h v =
      if_cases (OnTime c.now) (Legs.contains t m.timers) _ m (λ _. sample-OnTime time c m h v)
        (λ _. Kept-OnTime time c.now m m h (refl, refl, refl) v)
  step-OnTime time c (ticks k id t) m h v =
      Kept-OnTime time c.now m _ h (leg_tick-Kept c.now k id t m) v
  step-OnTime time c (fails k id e) m h v = Kept-OnTime time c.now m _ h (leg_fails-Kept k id e m) v
  step-OnTime time c (ends down id) m h v =
      Kept-OnTime time c.now m (leg_ends down id m) h (leg_ends-Kept down id m) v
  step-OnTime time c (ends up id) m h v =
      Kept-OnTime time c.now m (leg_ends up id m) h (leg_ends-Kept up id m) v
  step-OnTime time c leg_resumes m h v = Kept-OnTime time c.now m _ h (settle-Kept m) v
  step-OnTime time c session_resumes m h v =
      if_cases (OnTime c.now) (ltb 0 m.wakes) _ m
        (λ _.
          conclude-OnTime time c (record m { wakes = m.wakes - 1 }) h
            (record { valid = v.valid; begun = v.begun; reached = v.reached }))
        (λ _. Kept-OnTime time c.now m m h (refl, refl, refl) v)

  -- The position on the timeline is never behind the newest sample and never runs backwards. It is
  -- the session's clock while the session runs, and the newest sample's time otherwise.
  elapsed-OnTime :
      (time now later : ℕ) (m : Monitor F.R)
      → time ≤ now
      → now ≤ later
      → OnTime time m
      → (last_sample m ≤ elapsed_ms now m)
        × (elapsed_ms now m ≤ elapsed_ms later m)
        × (elapsed_ms now m ≡ (if m.running then session_clock now m else last_sample m))
  unfolding elapsed_ms
  elapsed-OnTime time now later m h k v =
      ground (arith, last_t-last? 0 m.series.points, v.reached, v.begun)
