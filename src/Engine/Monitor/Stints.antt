-- ===== src/Engine/Monitor/Stints.antt =====
-- monitor.ts, `Leg`: stints, reports of stints that are over, and the bytes carried across them.
use megapet.Common.{
  ℕ, ◌+◌, ◌<◌, if◌then◌else◌, Bool, true, false, not, ◌&&◌, Option, none, some, List, [], ◌∷◌, ◌≡◌,
  refl, is_some, Num, arith, All, if_cases, option_cases, subst,
}
use megapet.Engine.Transfer.{TransferTick}
use megapet.Engine.Monitor.Legs.{Leg, idle, holds, contains, bytes}
use megapet.Engine.Monitor.Legs
use megapet.Engine.Monitor.{
  Monitor, Directions, Clocks, start, stop, turn_down, turn_up, run_leg, emit, sample,
  settle_if_stopped, open_session,
}

-- A number past all those of a list is not among them.
pub not-contains : (n : ℕ) (xs : List ℕ) → All (λ a. a < n) xs → contains n xs ≡ false
not-contains n [] h = refl
not-contains n (x ∷ xs) h = ground (arith, h.0, not-contains n xs h.1)

module _ ⦃F : Num⦄ where
  abbrev pub NumberBelow : ℕ → Option ℕ → Type 0
  NumberBelow n none = Unit
  NumberBelow n (some c) = c < n

  abbrev pub Quiet : Option ℕ → TransferTick F.R → Type 0
  Quiet none t = t ≡ idle
  Quiet (some c) t = Unit

  -- A leg that is switched off carries the idle report, and stints are numbered upwards.
  pub record IsLeg (l : Leg F.R) : Type 0 where
    pub quiet : Quiet l.controller l.tick
    pub numbered : NumberBelow l.next_stint l.controller
    pub past : All (λ a. a < l.next_stint) l.aborted

  -- What an event other than a report does to one leg: at most one of the leg's methods.
  pub data LegMove (l : Leg F.R) : Leg F.R → Type 0 where
    keeps : LegMove l l
    begins : LegMove l (Legs.start l)
    settles : (id : ℕ) → LegMove l (Legs.end id l)
    aborts : LegMove l (Legs.stop l)

  All-weaken : (m n : ℕ) (xs : List ℕ) → m < n → All (λ a. a < m) xs → All (λ a. a < n) xs
  All-weaken m n [] h v = tt
  All-weaken m n (x ∷ xs) h v = (omega arith, All-weaken m n xs h v.1)

  holds-Quiet : (id : ℕ) (o : Option ℕ) (t : TransferTick F.R) → holds o id ≡ true → Quiet o t
  holds-Quiet id none t h = cc
  holds-Quiet id (some c) t h = tt

  pub Quiet-idle : (o : Option ℕ) (t : TransferTick F.R) → is_some o ≡ false → Quiet o t → t ≡ idle
  Quiet-idle none t h q = q
  Quiet-idle (some c) t h q = cc

  start-IsLeg : (l : Leg F.R) → IsLeg l → IsLeg (Legs.start l)
  unfolding Legs.start
  start-IsLeg l v =
      if_cases IsLeg (is_some l.controller) l _ (λ _. v)
        λ _. record {
          quiet = tt;
          numbered = omega arith;
          past = All-weaken l.next_stint (l.next_stint + 1) l.aborted (omega arith) v.past;
        }

  pub on_tick-IsLeg :
      (id : ℕ) (t : TransferTick F.R) (l : Leg F.R) → IsLeg l → IsLeg (Legs.on_tick id t l).0
  unfolding Legs.on_tick
  on_tick-IsLeg id t l v =
      if_cases {A = Leg F.R × Bool} (λ r. IsLeg r.0) (holds l.controller id)
        (record l { tick = t }, true) (l, false)
        (λ e. record {
          quiet = holds-Quiet id l.controller t e;
          numbered = v.numbered;
          past = v.past;
        })
        (λ _. v)

  end-IsLeg : (id : ℕ) (l : Leg F.R) → IsLeg l → IsLeg (Legs.end id l)
  unfolding Legs.end
  end-IsLeg id l v =
      if_cases IsLeg (holds l.controller id) _ l
        (λ _. record { quiet = refl; numbered = tt; past = v.past }) (λ _. v)

  stop-IsLeg : (l : Leg F.R) → IsLeg l → IsLeg (Legs.stop l)
  unfolding Legs.stop
  stop-IsLeg l v =
      option_cases IsLeg l.controller l _ (λ _. v)
        λ c e. record {
          quiet = v.quiet;
          numbered = v.numbered;
          past = (subst (NumberBelow l.next_stint) e v.numbered, v.past);
        }

  pub LegMove-IsLeg : {l l' : Leg F.R} → LegMove l l' → IsLeg l → IsLeg l'
  LegMove-IsLeg keeps v = v
  LegMove-IsLeg {l} begins v = start-IsLeg l v
  LegMove-IsLeg {l} (settles id) v = end-IsLeg id l v
  LegMove-IsLeg {l} aborts v = stop-IsLeg l v

  pub LegMove-bytes : {l l' : Leg F.R} → LegMove l l' → IsLeg l → bytes l' ≡ bytes l
  unfolding Legs.start Legs.end Legs.stop
  LegMove-bytes keeps v = refl
  LegMove-bytes {l} begins v =
      if_cases (λ r. bytes r ≡ bytes l) (is_some l.controller) l _ (λ _. refl)
        λ e. ground (arith, Quiet-idle l.controller l.tick e v.quiet)
  LegMove-bytes {l} (settles id) v =
      if_cases (λ r. bytes r ≡ bytes l) (holds l.controller id) _ l (λ _. omega arith) (λ _. refl)
  LegMove-bytes {l} aborts v =
      option_cases (λ r. bytes r ≡ bytes l) l.controller l _ (λ _. refl) (λ c _. refl)

  pub record Moves (m m' : Monitor F.R) : Type 0 where
    pub down_move : LegMove m.legs_down m'.legs_down
    pub up_move : LegMove m.legs_up m'.legs_up

  pub turn_down-legs :
      (b : Bool) (m : Monitor F.R)
      → ((turn_down b m).legs_down ≡ (if b then Legs.start m.legs_down else Legs.stop m.legs_down))
        × ((turn_down b m).legs_up ≡ m.legs_up)
  unfolding turn_down run_leg Legs.start Legs.stop
  turn_down-legs b m = ground arith

  pub turn_up-legs :
      (b : Bool) (m : Monitor F.R)
      → ((turn_up b m).legs_down ≡ m.legs_down)
        × ((turn_up b m).legs_up ≡ (if b then Legs.start m.legs_up else Legs.stop m.legs_up))
  unfolding turn_up run_leg Legs.start Legs.stop
  turn_up-legs b m = ground arith

  pub emit-legs :
      (now : ℕ) (m : Monitor F.R)
      → ((emit now m).legs_down ≡ m.legs_down) × ((emit now m).legs_up ≡ m.legs_up)
  unfolding emit
  emit-legs now m = ground arith

  pub sample-legs :
      (c : Clocks) (m : Monitor F.R)
      → ((sample c m).legs_down ≡ m.legs_down) × ((sample c m).legs_up ≡ m.legs_up)
  unfolding sample emit
  sample-legs c m = ground arith

  pub settle-legs :
      (m : Monitor F.R)
      → ((settle_if_stopped m).legs_down ≡ m.legs_down)
        × ((settle_if_stopped m).legs_up ≡ m.legs_up)
  unfolding settle_if_stopped
  settle-legs m = ground arith

  -- What `step` does to the download leg, and to the upload leg, apart from reports.
  abbrev pub stopped : Bool → Leg F.R → Leg F.R
  stopped b l = if b then Legs.stop l else l

  pub stop-legs :
      (m : Monitor F.R)
      → ((stop m).legs_down ≡ stopped (m.running && not m.stopping) m.legs_down)
        × ((stop m).legs_up ≡ stopped (m.running && not m.stopping) m.legs_up)
  unfolding stop settle_if_stopped
  stop-legs m = ground arith

  abbrev pub begun : Bool → Leg F.R → Leg F.R
  begun b l = if b then Legs.start l else l

  pub start-legs :
      (c : Clocks) (d : Directions) (m : Monitor F.R)
      → ((start c d m).legs_down ≡ begun (not m.running && d.down) m.legs_down)
        × ((start c d m).legs_up ≡ begun (not m.running && d.up) m.legs_up)
  unfolding start open_session run_leg Legs.start
  start-legs c d m = ground arith
