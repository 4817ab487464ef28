-- ===== src/Engine/Runner/Rules.antt =====
-- web/src/engine/runner.ts: rules for the parts that `run` is made of.
--
-- `Post Q E` says what holds after a part: `Q` of its value and the state where it gives one, `E` of
-- the state where it throws.
use megapet.Common.{
  Bool, true, false, ◌||◌, Option, none, some, List, [], ◌∷◌, ℕ, zero, suc, ◌≡◌, if_cases,
}
use megapet.Engine.Runner.{
  Snapshot, Settled, gives, throws, Await, Run, Part, continue, ◌>>>◌, emit, throw_if_aborted,
  waits, sleeps, reported, awaits,
}

module _ {R : Type 0} where
  abbrev pub Post :
      {A : Type 0} → (A → Run R → Type 0) → (Run R → Type 0) → Run R × Settled A → Type 0
  Post Q E (r, gives a) = Q a r
  Post Q E (r, throws e) = E r

  continue-Post :
      {A B : Type 0} (Q : A → Run R → Type 0) (S : B → Run R → Type 0) (E : Run R → Type 0)
      (x : Run R × Settled A) (f : A → Part R B)
      → Post Q E x
      → ((a : A) (r : Run R) → Q a r → Post S E (f a r))
      → Post S E (continue x f)
  continue-Post Q S E (r, gives a) f h k = k a r h
  continue-Post Q S E (r, throws e) f h k = h

  -- One part after another.
  pub bind-Post :
      {A B : Type 0} (Q : A → Run R → Type 0) (S : B → Run R → Type 0) (E : Run R → Type 0)
      (p : Part R A) (f : A → Part R B) (r : Run R)
      → Post Q E (p r)
      → ((a : A) (q : Run R) → Q a q → Post S E (f a q))
      → Post S E ((p >>> f) r)
  unfolding ◌>>>◌
  bind-Post Q S E p f r h k = continue-Post Q S E (p r) f h k

  -- What the caller's abort leaves alone.
  abbrev pub Steady : (Run R → Type 0) → Type 0
  Steady P = (r : Run R) (b : Bool) → P r → P (record r { signal_aborted = b })

  pub emit-Post :
      (Q : Unit → Run R → Type 0) (E : Run R → Type 0) (patch : Snapshot R → Snapshot R) (r : Run R)
      → Q tt (record {
        snapshot = patch r.snapshot;
        signal_aborted = r.signal_aborted;
        emitted = patch r.snapshot ∷ r.emitted;
      })
      → Post Q E (emit patch r)
  unfolding emit
  emit-Post Q E patch r h = h

  pub throw_if_aborted-Post :
      (Q : Unit → Run R → Type 0) (E : Run R → Type 0) (r : Run R)
      → (r.signal_aborted ≡ false → Q tt r)
      → (r.signal_aborted ≡ true → E r)
      → Post Q E (throw_if_aborted r)
  unfolding throw_if_aborted
  throw_if_aborted-Post Q E r h k =
      if_cases (λ (x : Settled Unit). Post Q E (r, x)) r.signal_aborted _ _ k h

  pub waits-Post :
      (Q : Unit → Run R → Type 0) (E : Run R → Type 0) (b : Bool) (r : Run R)
      → Q tt (record r { signal_aborted = r.signal_aborted || b })
      → Post Q E (waits b r)
  unfolding waits
  waits-Post Q E b r h = h

  pub sleeps-Post :
      (Q : Unit → Run R → Type 0) (E : Run R → Type 0) (ms : Option ℕ) (b : Bool) (r : Run R)
      → Q tt r
      → Q tt (record r { signal_aborted = r.signal_aborted || b })
      → Post Q E (sleeps ms b r)
  sleeps-Post Q E none b r h k = h
  sleeps-Post Q E (some zero) b r h k = h
  sleeps-Post Q E (some (suc ms)) b r h k = waits-Post Q E b r k

  -- What every report keeps.
  abbrev pub Kept : {D : Type 0} → (Run R → Type 0) → (D → Snapshot R → Snapshot R) → Type 0
  Kept {D} P patch =
      (d : D) (r : Run R)
      → P r
      → P (record {
        snapshot = patch d r.snapshot;
        signal_aborted = r.signal_aborted;
        emitted = patch d r.snapshot ∷ r.emitted;
      })

  reported-Kept :
      {D : Type 0} (P : Run R → Type 0) (patch : D → Snapshot R → Snapshot R) (ds : List D)
      (r : Run R)
      → Kept P patch
      → P r
      → P (reported patch ds r)
  unfolding reported emit
  reported-Kept P patch [] r k h = h
  reported-Kept P patch (d ∷ ds) r k h = reported-Kept P patch ds _ k (k d r h)

  pub awaits-Post :
      {D A : Type 0} (P : Run R → Type 0) (Q : A → Run R → Type 0) (E : Run R → Type 0)
      (patch : D → Snapshot R → Snapshot R) (a : Await D A) (r : Run R)
      → P r
      → Kept P patch
      → ((q : Run R)
          → P q
          → Post Q E (record q { signal_aborted = q.signal_aborted || a.aborts }, a.settles))
      → Post Q E (awaits patch a r)
  unfolding awaits waits
  awaits-Post P Q E patch a r h k f =
      f (reported patch a.reports r) (reported-Kept P patch a.reports r k h)

  -- A property that aborts and every way of settling leave alone.
  settles-Post :
      {A : Type 0} (P : Run R → Type 0) (r : Run R) (x : Settled A) → P r → Post (λ _. P) P (r, x)
  settles-Post P r (gives a) h = h
  settles-Post P r (throws e) h = h

  pub awaits-Steady :
      {D A : Type 0} (P : Run R → Type 0) (patch : D → Snapshot R → Snapshot R) (a : Await D A)
      (r : Run R)
      → Steady P
      → P r
      → Kept P patch
      → Post (λ _. P) P (awaits patch a r)
  awaits-Steady P patch a r s h k =
      awaits-Post P (λ _. P) P patch a r h k λ q l. settles-Post P _ a.settles (s q _ l)
