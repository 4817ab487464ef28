-- ===== src/Engine/Monitor/Legs.antt =====
-- monitor.ts, `Leg`: one direction of a session.
use megapet.Common.{
  ℕ, ◌+◌, ◌==◌, if◌then◌else◌, Bool, true, false, not, ◌||◌, Option, none, some, List, [], ◌∷◌,
  is_some, Num,
}
use megapet.Engine.Transfer.{TransferTick}

pub record Leg (R : Type 0) : Type 0 where
  -- the abort controller of the running stint, by its number
  pub controller : Option ℕ
  -- the controllers whose signal is aborted
  pub aborted : List ℕ
  pub next_stint : ℕ
  pub tick : TransferTick R
  pub carried : ℕ
  pub ever_ran : Bool

abbrev pub contains : ℕ → List ℕ → Bool
contains n [] = false
contains n (m ∷ ms) = (m == n) || contains n ms

-- `this.controller === controller`
abbrev pub holds : Option ℕ → ℕ → Bool
holds none id = false
holds (some c) id = c == id

module _ ⦃F : Num⦄ where
  abbrev pub idle : TransferTick F.R
  idle = record { live_mbps = F.of_ℕ 0; average_mbps = F.of_ℕ 0; bytes = 0; progress = F.of_ℕ 0 }

  abbrev pub new : Leg F.R
  new = record {
    controller = none;
    aborted = [];
    next_stint = 0;
    tick = idle;
    carried = 0;
    ever_ran = false;
  }

  abbrev pub running : Leg F.R → Bool
  running l = is_some l.controller

  abbrev pub measured : Leg F.R → Bool
  measured l = l.ever_ran

  unfoldable pub live_mbps : Leg F.R → F.R
  live_mbps l = if is_some l.controller then l.tick.live_mbps else F.of_ℕ 0

  abbrev pub average_mbps : Leg F.R → F.R
  average_mbps l = l.tick.average_mbps

  abbrev pub bytes : Leg F.R → ℕ
  bytes l = l.carried + l.tick.bytes

  -- `start` up to the call of `spawn`; what the phase reports and how it ends are events.
  unfoldable pub start : Leg F.R → Leg F.R
  start l = if is_some l.controller then l else record l {
    controller = some l.next_stint;
    next_stint = l.next_stint + 1;
    ever_ran = true;
    tick = idle;
  }

  -- The callback given to `spawn`, for the stint with number `id`. The Boolean says that the
  -- monitor's `onTick` is called.
  unfoldable pub on_tick : ℕ → TransferTick F.R → Leg F.R → Leg F.R × Bool
  on_tick id t l = if holds l.controller id then (record l { tick = t }, true) else (l, false)

  -- Whether the `catch` of the stint hands its error on: not if its own signal is aborted.
  unfoldable pub fails : ℕ → Leg F.R → Bool
  fails id l = not (contains id l.aborted)

  -- The `finally` of the stint.
  unfoldable pub end : ℕ → Leg F.R → Leg F.R
  end id l =
      if holds l.controller id
      then record l { carried = l.carried + l.tick.bytes; tick = idle; controller = none }
      else l

  unfoldable pub stop : Leg F.R → Leg F.R
  stop l = elim l.controller [ none ↦ l | some c ↦ record l { aborted = c ∷ l.aborted } ]
