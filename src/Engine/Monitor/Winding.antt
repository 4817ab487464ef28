-- ===== src/Engine/Monitor/Winding.antt =====
-- monitor.ts: what a stopped session does until both of its phases have ended.
use megapet.Common.{
  ◌⊎◌, inl, inr, Option, is_some, refl, ◌∙◌, ap, sym, subst, not, ◌||◌, if_cases, Bool,
  if◌then◌else◌, ℕ, ◌+◌, true, false, none, some, ◌≡◌, Num, arith,
}
use megapet.Engine.Monitor.Legs
use megapet.Engine.Monitor.{Monitor, Key, leg, down, up, stop, settle_if_stopped, leg_ends}
use megapet.Engine.Monitor.Session.{IsSession}
use megapet.Engine.Monitor.Stints.{settle-legs}

module _ ⦃F : Num⦄ where
  abbrev pub other : Key → Key
  other down = up
  other up = down

  -- The number of the running stint, if any.
  abbrev current : Legs.Leg F.R → ℕ
  current l = elim l.controller [ none ↦ 0 | some c ↦ c ]

  -- The phase of one direction ends, as it does once its signal is aborted.
  abbrev phase_ends : Key → Monitor F.R → Monitor F.R
  phase_ends k m = leg_ends k (current (leg k m)) m

  -- Both phases end, in either order, and after each the rest of its `runLeg` runs, for the first of
  -- them before or after the second has ended.
  abbrev pub wind_down : (first : Key) → (at_once : Bool) → Monitor F.R → Monitor F.R
  wind_down first at_once m =
      let one = phase_ends first m in
      let between = if at_once then settle_if_stopped one else one in
      let two = settle_if_stopped (phase_ends (other first) between) in
      if at_once then two else settle_if_stopped two

  -- What winding down leaves alone.
  pub record IsKept (m p : Monitor F.R) : Type 0 where
    pub series : p.series ≡ m.series
    pub sampler : p.sampler ≡ m.sampler
    pub timers : p.timers ≡ m.timers
    pub started_at : p.started_at ≡ m.started_at
    pub time_base : p.time_base ≡ m.time_base

  pub record IsWaiting (m p : Monitor F.R) : Type 0 where
    pub running : p.running ≡ true
    pub stopping : p.stopping ≡ true
    pub finished : p.finished ≡ true
    pub wakes : p.wakes ≡ m.wakes

  pub record IsOver (m p : Monitor F.R) : Type 0 where
    pub running : p.running ≡ false
    pub stopping : p.stopping ≡ false
    pub wakes : p.wakes ≡ m.wakes + 1
    pub off : (k : Key) → (leg k p).controller ≡ none

  -- A stopped session waits for its phases, or is over with both directions off.
  pub record Winds (m p : Monitor F.R) : Type 0 where
    pub kept : IsKept m p
    pub state : IsWaiting m p ⊎ IsOver m p

  is_off : {A : Type 0} (o : Option A) → is_some o ≡ false → o ≡ none
  is_off none h = refl
  is_off (some a) h = cc

  settle-IsKept : (p : Monitor F.R) → IsKept p (settle_if_stopped p)
  unfolding settle_if_stopped
  settle-IsKept p =
      if_cases (IsKept p) (not p.stopping) p _
        (λ _. record {
          series = refl;
          sampler = refl;
          timers = refl;
          started_at = refl;
          time_base = refl;
        })
        λ _.
          if_cases (IsKept p) (Legs.running p.legs_down || Legs.running p.legs_up) p _
            (λ _. record {
              series = refl;
              sampler = refl;
              timers = refl;
              started_at = refl;
              time_base = refl;
            })
            λ _. record {
              series = refl;
              sampler = refl;
              timers = refl;
              started_at = refl;
              time_base = refl;
            }

  IsKept-IsKept : {m p q : Monitor F.R} → IsKept m p → IsKept p q → IsKept m q
  IsKept-IsKept h k = record {
    series = k.series ∙ h.series;
    sampler = k.sampler ∙ h.sampler;
    timers = k.timers ∙ h.timers;
    started_at = k.started_at ∙ h.started_at;
    time_base = k.time_base ∙ h.time_base;
  }

  both_off :
      (p : Monitor F.R)
      → (Legs.running p.legs_down || Legs.running p.legs_up) ≡ false
      → (k : Key) → (leg k p).controller ≡ none
  both_off p e down = is_off p.legs_down.controller (ground (arith, e))
  both_off p e up = is_off p.legs_up.controller (ground (arith, e))

  legs_off :
      (p q : Monitor F.R)
      → q.legs_down ≡ p.legs_down
      → q.legs_up ≡ p.legs_up
      → ((k : Key) → (leg k p).controller ≡ none)
      → (k : Key) → (leg k q).controller ≡ none
  legs_off p q d u f down = ap (λ l. l.controller) d ∙ f down
  legs_off p q d u f up = ap (λ l. l.controller) u ∙ f up

  -- A session that waits goes on waiting while a direction runs, and is over otherwise.
  settle-cases :
      (m p : Monitor F.R)
      → IsWaiting m p
      → IsWaiting m (settle_if_stopped p) ⊎ IsOver m (settle_if_stopped p)
  unfolding settle_if_stopped
  settle-cases m p h =
      let Settled : Monitor F.R → Type 0 = λ q. IsWaiting m q ⊎ IsOver m q in
      if_cases Settled (not p.stopping) p _ (λ _. inl h)
        λ _.
          if_cases Settled (Legs.running p.legs_down || Legs.running p.legs_up) p _ (λ _. inl h)
            λ e. inr (record {
              running = refl;
              stopping = refl;
              wakes = ground (arith, h.finished, h.wakes);
              off = legs_off p _ refl refl (both_off p e);
            })

  settle-over : (m p : Monitor F.R) → IsOver m p → settle_if_stopped p ≡ p
  unfolding settle_if_stopped
  settle-over m p h = ground (arith, h.stopping)

  settle-Winds : (m p : Monitor F.R) → Winds m p → Winds m (settle_if_stopped p)
  settle-Winds m p h = record {
    kept = IsKept-IsKept h.kept (settle-IsKept p);
    state = elim h.state [
      | inl w ↦ settle-cases m p w
      | inr o ↦ inr (subst (IsOver m) (sym (settle-over m p o)) o)
    ];
  }

  -- With both directions off nothing is left to wait for.
  settle-IsOver :
      (m p : Monitor F.R)
      → ((k : Key) → (leg k p).controller ≡ none)
      → Winds m p
      → IsOver m (settle_if_stopped p)
  unfolding settle_if_stopped
  settle-IsOver m p f h = elim h.state [
    | inr o ↦ subst (IsOver m) (sym (settle-over m p o)) o
    | inl w ↦
        if_cases (IsOver m) (not p.stopping) p _ (λ e. absurd (ground (arith, e, w.stopping)))
          λ _.
            if_cases (IsOver m) (Legs.running p.legs_down || Legs.running p.legs_up) p _
              (λ e. absurd (ground (arith, e, f down, f up)))
              λ _. record {
                running = refl;
                stopping = refl;
                wakes = ground (arith, w.finished, w.wakes);
                off = legs_off p _ refl refl f;
              }
  ]

  end-off : (l : Legs.Leg F.R) → (Legs.end (current l) l).controller ≡ none
  unfolding Legs.end
  end-off l = ground arith

  end-none : (id : ℕ) (l : Legs.Leg F.R) → l.controller ≡ none → (Legs.end id l).controller ≡ none
  unfolding Legs.end
  end-none id l h = ground arith

  phase_ends-off : (k : Key) (p : Monitor F.R) → (leg k (phase_ends k p)).controller ≡ none
  unfolding leg_ends
  phase_ends-off down p = end-off p.legs_down
  phase_ends-off up p = end-off p.legs_up

  phase_ends-none :
      (k i : Key) (p : Monitor F.R)
      → (leg i p).controller ≡ none
      → (leg i (phase_ends k p)).controller ≡ none
  unfolding leg_ends
  phase_ends-none down down p h = end-none _ p.legs_down h
  phase_ends-none down up p h = h
  phase_ends-none up down p h = h
  phase_ends-none up up p h = end-none _ p.legs_up h

  phase_ends-IsKept : (k : Key) (p : Monitor F.R) → IsKept p (phase_ends k p)
  unfolding leg_ends
  phase_ends-IsKept down p = record {
    series = refl;
    sampler = refl;
    timers = refl;
    started_at = refl;
    time_base = refl;
  }
  phase_ends-IsKept up p = record {
    series = refl;
    sampler = refl;
    timers = refl;
    started_at = refl;
    time_base = refl;
  }

  phase_ends-IsWaiting :
      (k : Key) (m p : Monitor F.R) → IsWaiting m p → IsWaiting m (phase_ends k p)
  unfolding leg_ends
  phase_ends-IsWaiting down m p h = record {
    running = h.running;
    stopping = h.stopping;
    finished = h.finished;
    wakes = h.wakes;
  }
  phase_ends-IsWaiting up m p h = record {
    running = h.running;
    stopping = h.stopping;
    finished = h.finished;
    wakes = h.wakes;
  }

  phase_ends-flags :
      (k : Key) (p : Monitor F.R)
      → ((phase_ends k p).running ≡ p.running)
        × ((phase_ends k p).stopping ≡ p.stopping)
        × ((phase_ends k p).wakes ≡ p.wakes)
  unfolding leg_ends
  phase_ends-flags down p = (refl, refl, refl)
  phase_ends-flags up p = (refl, refl, refl)

  phase_ends-IsOver : (k : Key) (m p : Monitor F.R) → IsOver m p → IsOver m (phase_ends k p)
  phase_ends-IsOver k m p h =
      let (a, b, c) = phase_ends-flags k p in
      record {
        running = a ∙ h.running;
        stopping = b ∙ h.stopping;
        wakes = c ∙ h.wakes;
        off = λ i. phase_ends-none k i p (h.off i);
      }

  phase_ends-Winds : (k : Key) (m p : Monitor F.R) → Winds m p → Winds m (phase_ends k p)
  phase_ends-Winds k m p h = record {
    kept = IsKept-IsKept h.kept (phase_ends-IsKept k p);
    state = elim h.state [
      | inl w ↦ inl (phase_ends-IsWaiting k m p w)
      | inr o ↦ inr (phase_ends-IsOver k m p o)
    ];
  }

  settle-legs_off :
      (k : Key) (p : Monitor F.R)
      → (leg k p).controller ≡ none
      → (leg k (settle_if_stopped p)).controller ≡ none
  settle-legs_off down p h = ap (λ l. l.controller) (settle-legs p).0 ∙ h
  settle-legs_off up p h = ap (λ l. l.controller) (settle-legs p).1 ∙ h

  pub stop-Winds :
      (m : Monitor F.R) → m.running ≡ true → m.stopping ≡ false → IsSession m → Winds m (stop m)
  unfolding stop
  stop-Winds m r s v =
      if_cases (Winds m) (not m.running || m.stopping) m _ (λ e. absurd (ground (arith, e, r, s)))
        λ _. settle-Winds m _ (record {
          kept = record {
            series = refl;
            sampler = refl;
            timers = refl;
            started_at = refl;
            time_base = refl;
          };
          state =
              inl (record { running = r; stopping = refl; finished = v.awaited ∙ r; wakes = refl });
        })

  both_ended :
      (first k : Key) (p : Monitor F.R)
      → (leg first p).controller ≡ none
      → (leg (other first) p).controller ≡ none
      → (leg k p).controller ≡ none
  both_ended down down p h g = h
  both_ended down up p h g = g
  both_ended up down p h g = g
  both_ended up up p h g = h

  pub wind_down-Winds :
      (first : Key) (at_once : Bool) (m p : Monitor F.R)
      → Winds m p
      → Winds m (wind_down first at_once p) × IsOver m (wind_down first at_once p)
  wind_down-Winds first true m p h =
      let one = phase_ends-Winds first m p h in
      let between = settle-Winds m _ one in
      let two = phase_ends-Winds (other first) m _ between in
      (
        settle-Winds m _ two,
        settle-IsOver m _
            (λ k.
              both_ended first k _
                (phase_ends-none (other first) first _
                  (settle-legs_off first _ (phase_ends-off first p)))
                (phase_ends-off (other first) _))
            two,
      )
  wind_down-Winds first false m p h =
      let two = phase_ends-Winds (other first) m _ (phase_ends-Winds first m p h) in
      let once = settle-Winds m _ two in
      (
        settle-Winds m _ once,
        settle-IsOver m _
            (λ k. settle-legs_off k _ (
              both_ended first k _ (phase_ends-none (other first) first _ (phase_ends-off first p))
                (phase_ends-off (other first) _)))
            once,
      )
