-- ===== src/Engine/Monitor/Bytes.antt =====
-- monitor.ts: what each event does to each leg, and the bytes that a leg carries across stints.
use mathlib.Core.Bool.{true≢false}
use megapet.Common.{
  ap, ◌∙◌, sym, subst, ℕ, ◌+◌, ◌-◌, ◌<◌, if◌then◌else◌, Bool, true, false, not, ◌&&◌, ◌≡◌, refl,
  Num, arith, if_cases,
}
use megapet.Engine.Transfer.{TransferTick}
use megapet.Engine.Monitor.Legs.{Leg, idle, holds, contains, bytes}
use megapet.Engine.Monitor.Legs
use megapet.Engine.Monitor.{
  Monitor, Directions, Clocks, Key, down, up, Event, starts, sets, stops, clears, fires, ticks,
  fails, ends, leg_resumes, session_resumes, step, set_directions, turn_down, turn_up, run_leg,
  emit, notify, sample, conclude, clear_history, leg_tick, leg_fails, leg_ends, Thrown, on_error,
  describe_error, leg,
}
use megapet.Engine.Monitor.Stints.{
  IsLeg, LegMove, keeps, begins, settles, aborts, LegMove-IsLeg, LegMove-bytes, on_tick-IsLeg,
  begun, stopped, turn_down-legs, turn_up-legs, emit-legs, sample-legs, settle-legs, stop-legs,
  start-legs,
}

abbrev pub same_key : Key → Key → Bool
same_key down down = true
same_key up up = true
same_key _ _ = false

abbrev pub wanted : Key → Directions → Bool
wanted down d = d.down
wanted up d = d.up

module _ ⦃F : Num⦄ where
  -- A leg as a machine of its own: what becomes of it depends on the other leg only through the
  -- session's flags, and through a failure, which stops the session.
  abbrev pub next_leg : Key → Event F.R → Monitor F.R → Leg F.R
  next_leg k (starts d) m = begun (not m.running && wanted k d) (leg k m)
  next_leg k (sets d) m =
      if m.running
      then if wanted k d then Legs.start (leg k m) else Legs.stop (leg k m)
      else leg k m
  next_leg k stops m = stopped (m.running && not m.stopping) (leg k m)
  next_leg k (ticks k' id t) m = if same_key k k' then (Legs.on_tick id t (leg k m)).0 else leg k m
  next_leg k (fails k' id e) m =
      stopped (Legs.fails id (leg k' m) && m.running && not m.stopping) (leg k m)
  next_leg k (ends k' id) m = if same_key k k' then Legs.end id (leg k m) else leg k m
  next_leg k clears m = leg k m
  next_leg k (fires t) m = leg k m
  next_leg k leg_resumes m = leg k m
  next_leg k session_resumes m = leg k m

  set_directions-legs :
      (now : ℕ) (d : Directions) (m : Monitor F.R)
      → ((set_directions now d m).legs_down ≡ next_leg down (sets d) m)
        × ((set_directions now d m).legs_up ≡ next_leg up (sets d) m)
  unfolding set_directions
  set_directions-legs now d m = ground (
    arith,
    emit-legs now (turn_up d.up (turn_down d.down m)),
    turn_up-legs d.up (turn_down d.down m),
    turn_down-legs d.down m,
  )

  leg_tick-legs :
      (now : ℕ) (k : Key) (id : ℕ) (t : TransferTick F.R) (m : Monitor F.R)
      → ((leg_tick now k id t m).legs_down ≡ next_leg down (ticks k id t) m)
        × ((leg_tick now k id t m).legs_up ≡ next_leg up (ticks k id t) m)
  unfolding leg_tick emit Legs.on_tick
  leg_tick-legs now down id t m = ground arith
  leg_tick-legs now up id t m = ground arith

  leg_fails-legs :
      (k : Key) (id : ℕ) (e : Thrown) (m : Monitor F.R)
      → ((leg_fails k id e m).legs_down ≡ next_leg down (fails k id e) m)
        × ((leg_fails k id e m).legs_up ≡ next_leg up (fails k id e) m)
  unfolding leg_fails
  leg_fails-legs k id e m =
      ground (arith, stop-legs m, stop-legs (notify (on_error (describe_error e)) m))

  conclude-legs :
      (c : Clocks) (m : Monitor F.R)
      → ((conclude c m).legs_down ≡ m.legs_down) × ((conclude c m).legs_up ≡ m.legs_up)
  unfolding conclude sample emit
  conclude-legs c m = ground arith

  step-legs :
      (c : Clocks) (e : Event F.R) (m : Monitor F.R)
      → ((step c e m).legs_down ≡ next_leg down e m) × ((step c e m).legs_up ≡ next_leg up e m)
  unfolding step leg_ends clear_history
  step-legs c (starts d) m = start-legs c d m
  step-legs c (sets d) m = set_directions-legs c.now d m
  step-legs c stops m = stop-legs m
  step-legs c clears m = ground arith
  step-legs c (fires t) m = ground (arith, sample-legs c m)
  step-legs c (ticks k id t) m = leg_tick-legs c.now k id t m
  step-legs c (fails k id e) m = leg_fails-legs k id e m
  step-legs c (ends down id) m = (refl, refl)
  step-legs c (ends up id) m = (refl, refl)
  step-legs c leg_resumes m = settle-legs m
  step-legs c session_resumes m = ground (arith, conclude-legs c (record m { wakes = m.wakes - 1 }))

  -- In every event each leg follows its own machine.
  pub step-next_leg :
      (c : Clocks) (e : Event F.R) (k : Key) (m : Monitor F.R) → leg k (step c e m) ≡ next_leg k e m
  step-next_leg c e down m = (step-legs c e m).0
  step-next_leg c e up m = (step-legs c e m).1

  begun-Move : (b : Bool) (l : Leg F.R) → LegMove l (begun b l)
  begun-Move b l = if_cases (LegMove l) b (Legs.start l) l (λ _. begins) (λ _. keeps)

  stopped-Move : (b : Bool) (l : Leg F.R) → LegMove l (stopped b l)
  stopped-Move b l = if_cases (LegMove l) b (Legs.stop l) l (λ _. aborts) (λ _. keeps)

  abbrev is_report : Event F.R → Bool
  is_report (ticks k id t) = true
  is_report _ = false

  next_leg-Move :
      (k : Key) (e : Event F.R) (m : Monitor F.R)
      → is_report e ≡ false
      → LegMove (leg k m) (next_leg k e m)
  next_leg-Move k (starts d) m h = begun-Move _ _
  next_leg-Move k (sets d) m h =
      if_cases (LegMove (leg k m)) m.running _ (leg k m)
        (λ _. if_cases (LegMove (leg k m)) (wanted k d) _ _ (λ _. begins) (λ _. aborts))
        (λ _. keeps)
  next_leg-Move k stops m h = stopped-Move _ _
  next_leg-Move k (ticks k' id t) m h = absurd (true≢false h)
  next_leg-Move k (fails k' id e) m h = stopped-Move _ _
  next_leg-Move k (ends k' id) m h =
      if_cases (LegMove (leg k m)) (same_key k k') _ _ (λ _. settles id) (λ _. keeps)
  next_leg-Move k _ m h = keeps

  -- Both legs are well formed: numbered upwards, and idle while switched off.
  abbrev pub IsLegs : Monitor F.R → Type 0
  IsLegs m = (k : Key) → IsLeg (leg k m)

  report-IsLeg :
      (k k' : Key) (id : ℕ) (t : TransferTick F.R) (m : Monitor F.R)
      → IsLegs m
      → IsLeg (next_leg k (ticks k' id t) m)
  report-IsLeg k k' id t m v =
      if_cases IsLeg (same_key k k') _ (leg k m) (λ _. on_tick-IsLeg id t (leg k m) (v k))
        (λ _. v k)

  next_leg-IsLeg : (k : Key) (e : Event F.R) (m : Monitor F.R) → IsLegs m → IsLeg (next_leg k e m)
  next_leg-IsLeg k (ticks k' id t) m v = report-IsLeg k k' id t m v
  next_leg-IsLeg k e m v = LegMove-IsLeg (next_leg-Move k e m refl) (v k)

  -- Every event keeps both legs well formed.
  step-IsLegs : (c : Clocks) (e : Event F.R) (m : Monitor F.R) → IsLegs m → IsLegs (step c e m)
  step-IsLegs c e m v k = subst IsLeg (sym (step-next_leg c e k m)) (next_leg-IsLeg k e m v)

  -- The bytes of a direction after an event: a report of its running stint sets what the stint has
  -- moved, and nothing else counts.
  abbrev pub bytes_after : Key → Event F.R → Leg F.R → ℕ
  bytes_after k (ticks k' id t) l =
      if same_key k k' && holds l.controller id then l.carried + t.bytes else bytes l
  bytes_after k e l = bytes l

  on_tick-bytes :
      (id : ℕ) (t : TransferTick F.R) (l : Leg F.R)
      → bytes (Legs.on_tick id t l).0
        ≡ (if holds l.controller id then l.carried + t.bytes else bytes l)
  unfolding Legs.on_tick
  on_tick-bytes id t l = ground arith

  next_leg-bytes :
      (k : Key) (e : Event F.R) (m : Monitor F.R)
      → IsLegs m
      → bytes (next_leg k e m) ≡ bytes_after k e (leg k m)
  next_leg-bytes k (ticks k' id t) m v = ground (arith, on_tick-bytes id t (leg k m))
  next_leg-bytes k e m v = LegMove-bytes (next_leg-Move k e m refl) (v k)

  -- The bytes of a direction after any event: a report of the stint that runs sets them to what
  -- earlier stints have carried over and what it reports; a report of a stint that is over, or of
  -- the other direction, changes nothing, and nor does switching the direction off and on again, the
  -- failure of a phase or the end of a stint.
  pub step-bytes :
      (c : Clocks) (e : Event F.R) (k : Key) (m : Monitor F.R)
      → IsLegs m
      → bytes (leg k (step c e m)) ≡ bytes_after k e (leg k m)
  step-bytes c e k m v = ap bytes (step-next_leg c e k m) ∙ next_leg-bytes k e m v

  -- A report of a stint that has ended changes nothing, also once the direction runs again: no
  -- reading, no total and no call of a handler.
  late_report :
      (now : ℕ) (k : Key) (id : ℕ) (t : TransferTick F.R) (m : Monitor F.R)
      → id < (leg k m).next_stint
      → leg_tick now k id t (run_leg k (leg_ends k id m)) ≡ run_leg k (leg_ends k id m)
  unfolding leg_tick run_leg leg_ends Legs.on_tick Legs.end Legs.start
  late_report now down id t m h = ground arith
  late_report now up id t m h = ground arith
