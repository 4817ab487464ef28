-- ===== src/Engine/Monitor/Doing.antt =====
-- monitor.ts: what a direction is doing, as a machine that sees only the flags of the session.
use megapet.Common.{
  ap, ◌∙◌, ℕ, if◌then◌else◌, Bool, false, not, ◌&&◌, ◌≡◌, refl, Num, arith, none, some,
}
use megapet.Engine.Transfer.{TransferTick}
use megapet.Engine.Monitor.Legs.{Leg, holds, contains}
use megapet.Engine.Monitor.Legs
use megapet.Engine.Monitor.{
  Monitor, Clocks, Key, Event, starts, sets, stops, clears, fires, ticks, fails, ends, leg_resumes,
  session_resumes, step, leg,
}
use megapet.Engine.Monitor.Stints.{IsLeg, not-contains}
use megapet.Engine.Monitor.Bytes.{next_leg, step-next_leg, IsLegs, same_key, wanted}

-- A direction is off, going, or winding down, its signal being aborted.
pub data Doing : Type 0 where
  off going winding : Doing

abbrev pub turned_on : Doing → Doing
turned_on off = going
turned_on going = going
turned_on winding = winding

abbrev pub turned_off : Doing → Doing
turned_off off = off
turned_off going = winding
turned_off winding = winding

-- What a direction sees of the rest in an event: the flags of the session, whether a phase failed
-- that had not been aborted, and whether it is its own phase that has ended.
pub record Seen : Type 0 where
  pub running : Bool
  pub stopping : Bool
  pub failed : Bool
  pub over : Bool

module _ ⦃F : Num⦄ where
  abbrev pub doing : Leg F.R → Doing
  doing l = elim l.controller [
    | none ↦ off
    | some c ↦ if contains c l.aborted then winding else going
  ]

  abbrev pub failed : Event F.R → Monitor F.R → Bool
  failed (fails k id e) m = not (contains id (leg k m).aborted)
  failed e m = false

  abbrev pub over : Key → Event F.R → Monitor F.R → Bool
  over k (ends k' id) m = same_key k k' && holds (leg k m).controller id
  over k e m = false

  abbrev pub seen : Key → Event F.R → Monitor F.R → Seen
  seen k e m = record {
    running = m.running;
    stopping = m.stopping;
    failed = failed e m;
    over = over k e m;
  }

  abbrev pub doing_after : Key → Event F.R → Seen → Doing → Doing
  doing_after k (starts d) s x = if not s.running && wanted k d then turned_on x else x
  doing_after k (sets d) s x =
      if s.running then (if wanted k d then turned_on x else turned_off x) else x
  doing_after k stops s x = if s.running && not s.stopping then turned_off x else x
  doing_after k (fails k' id e) s x =
      if s.failed && s.running && not s.stopping then turned_off x else x
  doing_after k (ends k' id) s x = if s.over then off else x
  doing_after k e s x = x

  start-doing : (l : Leg F.R) → IsLeg l → doing (Legs.start l) ≡ turned_on (doing l)
  unfolding Legs.start
  start-doing l v = ground (arith, not-contains l.next_stint l.aborted v.past)

  stop-doing : (l : Leg F.R) → doing (Legs.stop l) ≡ turned_off (doing l)
  unfolding Legs.stop
  stop-doing l = ground arith

  end-doing :
      (id : ℕ) (l : Leg F.R)
      → doing (Legs.end id l) ≡ (if holds l.controller id then off else doing l)
  unfolding Legs.end
  end-doing id l = ground arith

  on_tick-doing :
      (id : ℕ) (t : TransferTick F.R) (l : Leg F.R) → doing (Legs.on_tick id t l).0 ≡ doing l
  unfolding Legs.on_tick
  on_tick-doing id t l = ground arith

  next_leg-doing :
      (k : Key) (e : Event F.R) (m : Monitor F.R)
      → IsLegs m
      → doing (next_leg k e m) ≡ doing_after k e (seen k e m) (doing (leg k m))
  unfolding Legs.fails
  next_leg-doing k (starts d) m v = ground (arith, start-doing (leg k m) (v k))
  next_leg-doing k (sets d) m v = ground (arith, start-doing (leg k m) (v k), stop-doing (leg k m))
  next_leg-doing k stops m v = ground (arith, stop-doing (leg k m))
  next_leg-doing k (fails k' id e) m v = ground (arith, stop-doing (leg k m))
  next_leg-doing k (ends k' id) m v = ground (arith, end-doing id (leg k m))
  next_leg-doing k (ticks k' id t) m v = ground (arith, on_tick-doing id t (leg k m))
  next_leg-doing k clears m v = refl
  next_leg-doing k (fires t) m v = refl
  next_leg-doing k leg_resumes m v = refl
  next_leg-doing k session_resumes m v = refl

  -- In every event each direction, seen as off, going or winding down, follows a machine that sees
  -- of the rest only the two flags of the session and whether a phase failed that had not been
  -- aborted. It goes on only from being off, one that winds down does so until its own phase ends,
  -- and reports, the interval and the rest of `start` and `runLeg` leave it as it is.
  pub step-doing :
      (c : Clocks) (e : Event F.R) (k : Key) (m : Monitor F.R)
      → IsLegs m
      → doing (leg k (step c e m)) ≡ doing_after k e (seen k e m) (doing (leg k m))
  step-doing c e k m v = ap doing (step-next_leg c e k m) ∙ next_leg-doing k e m v
