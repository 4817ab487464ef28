-- ===== src/Engine/Runner/Guard.antt =====
-- web/src/engine/runner.ts: a test object, its running flag, and calls of run while one is under way.
--
-- `run` is cut where its first await gives way: what it does at once is `begin`, and its `finally`
-- is `finish`. A signal is its number, that of the controller which a run makes for itself.
use megapet.Common.{
  ℕ, ◌+◌, ◌≤◌, ◌≡◌, refl, ap, sym, subst, if◌then◌else◌, if_cases, Bool, true, false, List, [], ◌∷◌,
  Num, arith, All, inl, inr, ◌⊎◌, ◌<◌,
}
use megapet.Engine.Transfer.{Thrown, other}
use megapet.Engine.Runner.{Snapshot, Settled, gives, throws}
use megapet.Engine.Runner.Stages.{empty_snapshot}

pub record SpeedTest (R : Type 0) : Type 0 where
  pub running : Bool
  pub snapshot : Snapshot R
  -- the number of the controller, and the controllers that were aborted
  pub controller : ℕ
  pub aborted : List ℕ

pub data Event (R : Type 0) : Type 0 where
  calls cancels : Event R
  returns : Snapshot R → Event R

module _ ⦃F : Num⦄ where
  abbrev pub already_running : Thrown
  already_running = other "a test is already running"

  abbrev pub fresh : SpeedTest F.R
  fresh = record { running = false; snapshot = empty_snapshot; controller = 0; aborted = [] }

  abbrev pub begun : SpeedTest F.R → SpeedTest F.R
  begun m = record m { running = true; controller = m.controller + 1; snapshot = empty_snapshot }

  unfoldable pub begin : SpeedTest F.R → SpeedTest F.R × Settled Unit
  begin m = if m.running then (m, throws already_running) else (begun m, gives tt)

  unfoldable pub abort : SpeedTest F.R → SpeedTest F.R
  abort m = record m { aborted = m.controller ∷ m.aborted }

  unfoldable pub finish : Snapshot F.R → SpeedTest F.R → SpeedTest F.R
  finish s m = record m { snapshot = s; running = false }

  -- A run returns only when one is under way.
  unfoldable pub step : Event F.R → SpeedTest F.R → SpeedTest F.R
  step calls m = (begin m).0
  step cancels m = abort m
  step (returns s) m = if m.running then finish s m else m

  unfoldable pub steps : List (Event F.R) → SpeedTest F.R → SpeedTest F.R
  steps [] m = m
  steps (e ∷ rest) m = steps rest (step e m)

  -- No controller but those made so far has been aborted.
  abbrev Reached : SpeedTest F.R → Type 0
  Reached m = All (λ n. n ≤ m.controller) m.aborted

  All-le : (k l : ℕ) (ns : List ℕ) → k ≤ l → All (λ n. n ≤ k) ns → All (λ n. n ≤ l) ns
  All-le k l [] h v = tt
  All-le k l (n ∷ ns) h (a, v) = (omega (arith, a, h), All-le k l ns h v)

  step-Reached : (e : Event F.R) (m : SpeedTest F.R) → Reached m → Reached (step e m)
  unfolding step begin abort finish
  step-Reached calls m v =
      if_cases (λ (x : SpeedTest F.R × Settled Unit). Reached x.0) m.running _ _ (λ _. v)
        λ _. All-le m.controller (m.controller + 1) m.aborted (omega arith) v
  step-Reached cancels m v = (omega arith, v)
  step-Reached (returns s) m v = if_cases Reached m.running (finish s m) m (λ _. v) λ _. v

  steps-Reached : (es : List (Event F.R)) (m : SpeedTest F.R) → Reached m → Reached (steps es m)
  unfolding steps
  steps-Reached [] m v = v
  steps-Reached (e ∷ rest) m v = steps-Reached rest (step e m) (step-Reached e m v)

  -- What a call of `run` meets.
  abbrev pub Refused : SpeedTest F.R → Type 0
  Refused m = (m.running ≡ true) × (begin m ≡ (m, throws already_running))

  abbrev pub Begun : SpeedTest F.R → Type 0
  Begun m =
      (m.running ≡ false)
      × ((begin m).1 ≡ gives tt)
      × ((begin m).0.running ≡ true)
      × All (λ n. n < (begin m).0.controller) (begin m).0.aborted

  All-lt : (k : ℕ) (ns : List ℕ) → All (λ n. n ≤ k) ns → All (λ n. n < k + 1) ns
  All-lt k [] v = tt
  All-lt k (n ∷ ns) (a, v) = (omega (arith, a), All-lt k ns v)

  begin-eq :
      (m : SpeedTest F.R) (b : Bool)
      → m.running ≡ b
      → begin m ≡ (if b then (m, throws already_running) else (begun m, gives tt))
  unfolding begin
  begin-eq m b h =
      ap (λ (b : Bool). if b then (m, throws already_running) else (begun m, gives tt)) h

  begin_cases : (m : SpeedTest F.R) (b : Bool) → m.running ≡ b → Reached m → Refused m ⊎ Begun m
  begin_cases m true h v = inl (h, begin-eq m true h)
  begin_cases m false h v =
      let e = begin-eq m false h in
      inr (
        h,
        ap (λ (x : SpeedTest F.R × Settled Unit). x.1) e,
        ap (λ (x : SpeedTest F.R × Settled Unit). x.0.running) e,
        subst (λ (x : SpeedTest F.R × Settled Unit). All (λ n. n < x.0.controller) x.0.aborted)
            (sym e) (All-lt m.controller m.aborted v),
      )

  -- Whatever was called, aborted and returned before, a call of run is refused and changes nothing if
  -- a run is under way; and if none is, it begins with a signal of its own that no abort has reached,
  -- not even one from before the call.
  pub steps-calls :
      (events : List (Event F.R)) → Refused (steps events fresh) ⊎ Begun (steps events fresh)
  steps-calls events =
      begin_cases (steps events fresh) (steps events fresh).running refl
        (steps-Reached events fresh tt)
