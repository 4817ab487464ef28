-- ===== src/Engine/Transfer/Retries.antt =====
-- web/src/engine/phases/transfer-phase.ts, `withRetries` and `isAbort`.
--
-- A round is one turn of the loop: what the signal said before the attempt, how the attempt
-- settled, and what the signal said after it. Fewer rounds than the loop takes leave it waiting.
use megapet.Common.{
  ◌<◌, ℕ, zero, suc, ◌+◌, ◌-◌, ◌*◌, ◌^◌, ◌≤◌, ◌≡◌, leb, if◌then◌else◌, Bool, true, false, ◌||◌,
  List, [], ◌∷◌, arith, ◌⊎◌, inl, inr, refl, subst,
}
use megapet.Engine.Transfer.{Thrown, abort_error, other, Outcome, fulfilled, rejected}

pub record Round : Type 0 where
  pub aborted_before : Bool
  pub attempt : Outcome
  pub aborted_after : Bool

-- How the worker's promise settles; `waiting` where the loop is not done with the rounds given.
pub data Ending : Type 0 where
  waiting returned : Ending
  threw : Thrown → Ending

pub record Retried : Type 0 where
  pub sleeps : List ℕ
  pub ending : Ending

-- What one turn of the loop does.
pub data Turn : Type 0 where
  leaves : Turn
  throws : Thrown → Turn
  resets : Turn
  sleeps_for : ℕ → Turn

abbrev pub max_stream_failures : ℕ
max_stream_failures = 3

abbrev pub is_abort : Thrown → Bool
is_abort (abort_error m) = true
is_abort (other m) = false

-- `Math.min(500, 50 * 2 ** failures)`
abbrev pub backoff : ℕ → ℕ
backoff failures = if leb (50 * 2 ^ failures) 500 then 50 * 2 ^ failures else 500

-- The `catch` block.
abbrev pub on_failure : (failures : ℕ) → Bool → Thrown → Turn
on_failure failures aborted e =
    if aborted || is_abort e
    then leaves
    else if leb max_stream_failures (suc failures)
    then throws e
    else sleeps_for (backoff (suc failures))

abbrev pub after_attempt : (failures : ℕ) → Bool → Outcome → Turn
after_attempt failures aborted fulfilled = resets
after_attempt failures aborted (rejected e) = on_failure failures aborted e

unfoldable pub turn : (failures : ℕ) → Round → Turn
turn failures r =
    if r.aborted_before then leaves else after_attempt failures r.aborted_after r.attempt

abbrev slept : ℕ → Retried → Retried
slept ms r = record r { sleeps = ms ∷ r.sleeps }

unfoldable pub with_retries : (failures : ℕ) → List Round → Retried
with_retries failures [] = record { sleeps = []; ending = waiting }
with_retries failures (r ∷ rest) = elim (turn failures r) [
  | leaves ↦ record { sleeps = []; ending = returned }
  | throws e ↦ record { sleeps = []; ending = threw e }
  | resets ↦ with_retries 0 rest
  | sleeps_for ms ↦ slept ms (with_retries (suc failures) rest)
]

-- A round whose attempt failed by itself: nobody aborted it.
pub record IsFault (e : Thrown) (r : Round) : Type 0 where
  pub wanted : r.aborted_before ≡ false
  pub failed : r.attempt ≡ rejected e
  pub kept : r.aborted_after ≡ false
  pub own : is_abort e ≡ false

-- The list begins with so many faults, the last of them with the given value.
abbrev pub Leads : Thrown → ℕ → List Round → Type 0
Leads e n [] = ⊥
Leads e zero (r ∷ rest) = ⊥
Leads e (suc zero) (r ∷ rest) = IsFault e r
Leads e (suc (suc n)) (r ∷ rest) = ((d : Thrown) × IsFault d r) × Leads e (suc n) rest

-- Somewhere in the list there are three faults in a row, the third with the given value.
abbrev pub ThreeInARow : Thrown → List Round → Type 0
ThreeInARow e [] = ⊥
ThreeInARow e (r ∷ rest) = Leads e 3 (r ∷ rest) ⊎ ThreeInARow e rest

-- What a fault does, by the number of failures before it.
turn-IsFault :
    (e : Thrown) (failures : ℕ) (r : Round)
    → IsFault e r
    → turn failures r ≡ on_failure failures false e
unfolding turn
turn-IsFault e failures r v = ground (arith, v.wanted, v.failed, v.kept)

Turn-cases :
    (t : Turn)
    → (t ≡ leaves)
      ⊎ ((e : Thrown) × (t ≡ throws e))
      ⊎ (t ≡ resets)
      ⊎ ((ms : ℕ) × (t ≡ sleeps_for ms))
Turn-cases leaves = inl refl
Turn-cases (throws e) = inr (inl (e, refl))
Turn-cases resets = inr (inr (inl refl))
Turn-cases (sleeps_for ms) = inr (inr (inr (ms, refl)))

after_attempt-throws :
    (e : Thrown) (failures : ℕ) (aborted : Bool) (o : Outcome)
    → after_attempt failures aborted o ≡ throws e
    → (aborted ≡ false) × (o ≡ rejected e) × (is_abort e ≡ false) × (2 ≤ failures)
after_attempt-throws e failures aborted fulfilled h = ground arith
after_attempt-throws e failures aborted (rejected (abort_error m)) h = ground arith
after_attempt-throws e failures aborted (rejected (other m)) h = ground arith

after_attempt-sleeps_for :
    (failures ms : ℕ) (aborted : Bool) (o : Outcome)
    → after_attempt failures aborted o ≡ sleeps_for ms
    → (aborted ≡ false) × ((e : Thrown) × (o ≡ rejected e) × (is_abort e ≡ false)) × (failures < 2)
after_attempt-sleeps_for failures ms aborted fulfilled h = ground arith
after_attempt-sleeps_for failures ms aborted (rejected (abort_error m)) h = ground arith
after_attempt-sleeps_for failures ms aborted (rejected (other m)) h =
    (ground arith, (other m, refl, refl), ground arith)

-- A turn that throws is a fault with two failures before it; a turn that waits is a fault.
turn-throws :
    (e : Thrown) (failures : ℕ) (r : Round)
    → turn failures r ≡ throws e
    → IsFault e r × (2 ≤ failures)
unfolding turn
turn-throws e failures r h =
    let w : r.aborted_before ≡ false = ground arith in
    let (a, o, own, n) = after_attempt-throws e failures r.aborted_after r.attempt (ground arith) in
    (record { wanted = w; failed = o; kept = a; own = own }, n)

turn-sleeps_for :
    (failures ms : ℕ) (r : Round)
    → turn failures r ≡ sleeps_for ms
    → ((e : Thrown) × IsFault e r) × (failures < 2)
unfolding turn
turn-sleeps_for failures ms r h =
    let w : r.aborted_before ≡ false = ground arith in
    let (a, (e, o, own), n) =
      after_attempt-sleeps_for failures ms r.aborted_after r.attempt (ground arith) in
    ((e, record { wanted = w; failed = o; kept = a; own = own }), n)

-- Three faults in a row, less those that came before the list.
abbrev Rest : Thrown → ℕ → List Round → Type 0
Rest e left rounds = Leads e left rounds ⊎ ThreeInARow e rounds

Rest-fresh : (e : Thrown) (rounds : List Round) → Rest e 3 rounds → ThreeInARow e rounds
Rest-fresh e [] (inl h) = h
Rest-fresh e (r ∷ rest) (inl h) = inl h
Rest-fresh e rounds (inr h) = h

Rest-last :
    (e : Thrown) (left : ℕ) (r : Round) (rest : List Round)
    → left ≡ 0
    → IsFault e r
    → Rest e (suc left) (r ∷ rest)
Rest-last e zero r rest n v = inl v
Rest-last e (suc left) r rest n v = absurd (ground arith)

Rest-cons :
    (e d : Thrown) (n : ℕ) (r : Round) (rest : List Round)
    → IsFault d r
    → Rest e (suc n) rest
    → Rest e (suc (suc n)) (r ∷ rest)
Rest-cons e d n r rest v (inl h) = inl ((d, v), h)
Rest-cons e d n r rest v (inr h) = inr (inr h)

with_retries-Rest :
    (e : Thrown) (failures left : ℕ) (rounds : List Round)
    → failures + left ≡ 2
    → (with_retries failures rounds).ending ≡ threw e
    → Rest e (suc left) rounds
unfolding with_retries
with_retries-Rest e failures left [] k h = ground arith
with_retries-Rest e failures left (r ∷ rest) k h = elim (Turn-cases (turn failures r)) [
  | inl t ↦ ground arith
  | inr (inl (d, t)) ↦
      let (v, n) = turn-throws d failures r t in
      Rest-last e left r rest (omega arith) (subst (λ x. IsFault x r) (ground arith) v)
  | inr (inr (inl t)) ↦
      inr (inr (Rest-fresh e rest (with_retries-Rest e 0 2 rest refl (ground arith))))
  | inr (inr (inr (ms, t))) ↦
      let ((d, v), n) = turn-sleeps_for failures ms r t in
      subst (λ x. Rest e (suc x) (r ∷ rest)) {x = suc (left - 1)} (omega arith)
        (Rest-cons e d (left - 1) r rest v
          (with_retries-Rest e (suc failures) (left - 1) rest (omega arith) (ground arith)))
]

-- A worker that starts with no failures throws only after three rounds in a row that failed by
-- themselves, and what it throws is the third failure; a success in between starts the count again.
pub with_retries-ThreeInARow :
    (e : Thrown) (rounds : List Round)
    → (with_retries 0 rounds).ending ≡ threw e
    → ThreeInARow e rounds
with_retries-ThreeInARow e rounds h = Rest-fresh e rounds (with_retries-Rest e 0 2 rounds refl h)

-- Three rounds in a row that fail by themselves end the worker with the third failure, after the
-- two waits of 100 and 200 milliseconds.
with_retries-Leads :
    (e : Thrown) (rounds : List Round)
    → Leads e 3 rounds
    → with_retries 0 rounds ≡ record { sleeps = 100 ∷ 200 ∷ []; ending = threw e }
unfolding with_retries
with_retries-Leads e (a ∷ b ∷ c ∷ rest) ((d, v), ((f, w), x)) =
    ground
      (arith, turn-IsFault d 0 a v, turn-IsFault f 1 b w, turn-IsFault e 2 c x, v.own, w.own, x.own)
with_retries-Leads e (a ∷ b ∷ []) (v, w) = absurd w.1
with_retries-Leads e (a ∷ []) (v, x) = absurd x
with_retries-Leads e [] x = absurd x
