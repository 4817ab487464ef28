-- ===== src/Engine/Monitor/Session.antt =====
-- monitor.ts: what holds of the session's flags in every reachable state.
use megapet.Common.{ℕ, ◌-◌, Bool, true, false, not, ◌&&◌, ◌≡◌, Num, arith, ◌∙◌, if_cases}
use megapet.Engine.Transfer.{TransferTick}
use megapet.Engine.Monitor.Legs
use megapet.Engine.Monitor.{
  Monitor, Directions, Clocks, Key, down, up, Event, starts, sets, stops, clears, fires, ticks,
  fails, ends, leg_resumes, session_resumes, step, start, stop, set_directions, turn_down, turn_up,
  run_leg, emit, notify, sample, settle_if_stopped, open_session, conclude, clear_history, leg_tick,
  leg_fails, leg_ends, Thrown, on_error, describe_error,
}

module _ ⦃F : Num⦄ where
  -- A session that is being stopped is running; a leg runs only in a session; the promise that
  -- `start` awaits is unresolved exactly while the session runs.
  pub record IsSession (m : Monitor F.R) : Type 0 where
    pub stop_runs : (m.stopping && not m.running) ≡ false
    pub down_runs : (Legs.running m.legs_down && not m.running) ≡ false
    pub up_runs : (Legs.running m.legs_up && not m.running) ≡ false
    pub awaited : m.finished ≡ m.running

  settle-IsSession : (m : Monitor F.R) → IsSession m → IsSession (settle_if_stopped m)
  unfolding settle_if_stopped
  settle-IsSession m v = grind arith

  stop-IsSession : (m : Monitor F.R) → IsSession m → IsSession (stop m)
  unfolding stop Legs.stop settle_if_stopped
  stop-IsSession m v = ground arith

  emit-IsSession : (now : ℕ) (m : Monitor F.R) → IsSession m → IsSession (emit now m)
  unfolding emit
  emit-IsSession now m v = ground arith

  sample-IsSession : (c : Clocks) (m : Monitor F.R) → IsSession m → IsSession (sample c m)
  unfolding sample emit
  sample-IsSession c m v = ground arith

  run_leg-IsSession :
      (k : Key) (m : Monitor F.R) → m.running ≡ true → IsSession m → IsSession (run_leg k m)
  unfolding run_leg Legs.start
  run_leg-IsSession down m r v = ground arith
  run_leg-IsSession up m r v = ground arith

  run_leg-running : (k : Key) (m : Monitor F.R) → (run_leg k m).running ≡ m.running
  unfolding run_leg
  run_leg-running down m = ground arith
  run_leg-running up m = ground arith

  turn_down-IsSession :
      (b : Bool) (m : Monitor F.R)
      → m.running ≡ true
      → IsSession m
      → IsSession (turn_down b m) × ((turn_down b m).running ≡ true)
  unfolding turn_down Legs.stop
  turn_down-IsSession b m r v = ground (arith, run_leg-IsSession down m r v, run_leg-running down m)

  turn_up-IsSession :
      (b : Bool) (m : Monitor F.R) → m.running ≡ true → IsSession m → IsSession (turn_up b m)
  unfolding turn_up Legs.stop
  turn_up-IsSession b m r v = ground (arith, run_leg-IsSession up m r v)

  set_directions-IsSession :
      (now : ℕ) (d : Directions) (m : Monitor F.R)
      → IsSession m
      → IsSession (set_directions now d m)
  unfolding set_directions
  set_directions-IsSession now d m v =
      if_cases IsSession (not m.running) m _ (λ _. v)
        λ e.
          let (w, r) = turn_down-IsSession d.down m (ground arith) v in
          emit-IsSession now _ (turn_up-IsSession d.up (turn_down d.down m) r w)

  open_session-IsSession :
      (c : Clocks) (m : Monitor F.R)
      → IsSession (open_session c m) × ((open_session c m).running ≡ true)
  unfolding open_session
  open_session-IsSession c m = ground arith

  start-IsSession :
      (c : Clocks) (d : Directions) (m : Monitor F.R) → IsSession m → IsSession (start c d m)
  unfolding start
  start-IsSession c d m v =
      let (w, r) = open_session-IsSession c m in
      let w1 = run_leg-IsSession down (open_session c m) r w in
      let r1 = run_leg-running down (open_session c m) ∙ r in
      ground (
        arith,
        w1,
        r1,
        run_leg-IsSession up (open_session c m) r w,
        run_leg-IsSession up (run_leg down (open_session c m)) r1 w1,
      )

  conclude-IsSession : (c : Clocks) (m : Monitor F.R) → IsSession m → IsSession (conclude c m)
  unfolding conclude sample emit
  conclude-IsSession c m v = ground arith

  clear_history-IsSession : (m : Monitor F.R) → IsSession m → IsSession (clear_history m)
  unfolding clear_history
  clear_history-IsSession m v = ground arith

  leg_tick-IsSession :
      (now : ℕ) (k : Key) (id : ℕ) (t : TransferTick F.R) (m : Monitor F.R)
      → IsSession m
      → IsSession (leg_tick now k id t m)
  unfolding leg_tick emit Legs.on_tick
  leg_tick-IsSession now down id t m v = ground arith
  leg_tick-IsSession now up id t m v = ground arith

  leg_fails-IsSession :
      (k : Key) (id : ℕ) (e : Thrown) (m : Monitor F.R)
      → IsSession m
      → IsSession (leg_fails k id e m)
  unfolding leg_fails
  leg_fails-IsSession k id e m v =
      ground (arith, stop-IsSession m v, stop-IsSession (notify (on_error (describe_error e)) m))

  leg_ends-IsSession :
      (k : Key) (id : ℕ) (m : Monitor F.R) → IsSession m → IsSession (leg_ends k id m)
  unfolding leg_ends Legs.end
  leg_ends-IsSession down id m v = ground arith
  leg_ends-IsSession up id m v = ground arith

  -- Every event, in any order and with any clocks, keeps the session's flags consistent.
  pub step-IsSession :
      (c : Clocks) (e : Event F.R) (m : Monitor F.R) → IsSession m → IsSession (step c e m)
  unfolding step
  step-IsSession c (starts d) m v = start-IsSession c d m v
  step-IsSession c (sets d) m v = set_directions-IsSession c.now d m v
  step-IsSession c stops m v = stop-IsSession m v
  step-IsSession c clears m v = clear_history-IsSession m v
  step-IsSession c (fires t) m v = ground (arith, sample-IsSession c m v)
  step-IsSession c (ticks k id t) m v = leg_tick-IsSession c.now k id t m v
  step-IsSession c (fails k id e) m v = leg_fails-IsSession k id e m v
  step-IsSession c (ends k id) m v = leg_ends-IsSession k id m v
  step-IsSession c leg_resumes m v = settle-IsSession m v
  step-IsSession c session_resumes m v =
      ground (arith, conclude-IsSession c (record m { wakes = m.wakes - 1 }))
