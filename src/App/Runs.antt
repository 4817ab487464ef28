-- ===== src/App/Runs.antt =====
-- web/src/ui/app.ts: how the runs of the controller move the page from situation to situation.
use Prim.Native.String.{String}
use megapet.Common.{
  ℕ, zero, suc, ◌+◌, ◌≡◌, refl, sym, ap, ◌∙◌, subst, if◌then◌else◌, if_cases, option_cases, Bool,
  true, Option, none, some, List, [], ◌∷◌, ◌++◌, is_some, length, length-append, Num, arith, ◌⊎◌,
  inl, inr,
}
use megapet.Engine.Runner.{Stage, Snapshot, Settled, idle}
use megapet.Features.TestController as Controller
use megapet.Features.TestController.{TestController}
use megapet.Features.TestController.Calls.{Peer, RunOutcome}
use megapet.Features.TestController.Marks.{
  holds, marks, IsMarked, taken, given_back, begin-IsMarked, opened-IsMarked, on_update-IsMarked,
  ended-IsMarked, persisted-IsMarked, abort-IsMarked,
}
use megapet.App.State.{App, Moment, Running, is_running, settle_tests, run_tests, abort_tests}
use megapet.App.{pick, server_opens, test_shows, test_ends, server_closes}
use megapet.App.Situation.{
  Situation, at_rest, in_session, waits_for_server, runs_test, server_asked, server_answers,
  test_starts, test_over, IsIn, Follows, still, settled-IsIn, is_some-none,
}

module _ ⦃F : Num⦄ where
  unchanged-IsMarked : (x : Situation) (a : App F.R) → IsIn x a → IsMarked [] a.tests.test a.tests
  unchanged-IsMarked x a h = record { marked = ap marks h.based.silent; under_way = refl }

  -- A change of the controller that says nothing of the link.
  said_nothing :
      (x : Situation) (w : Moment F.R) (m : TestController F.R) (a : App F.R)
      → IsMarked [] a.tests.test m
      → IsIn x a
      → IsIn x (settle_tests w (record a { tests = m }))
  said_nothing x w m a v h =
      settled-IsIn x x w [] (record a { tests = m }) v.marked (record { lit = h.lit.lit }) refl
        (record {
          silent = refl;
          openings = h.based.openings;
          running = h.based.running;
          held = ap is_some v.under_way ∙ h.based.held;
          unforced = h.based.unforced;
        })

  pub abort_tests-IsIn :
      (x : Situation) (w : Moment F.R) (a : App F.R) → IsIn x a → IsIn x (abort_tests w a)
  unfolding abort_tests
  abort_tests-IsIn x w a h =
      said_nothing x w (Controller.abort a.tests) a
        (abort-IsMarked [] a.tests.test a.tests (unchanged-IsMarked x a h)) h

  pub server_closes-IsIn :
      (x : Situation) (w : Moment F.R) (outcome : Settled RunOutcome) (a : App F.R)
      → IsIn x a
      → IsIn x (server_closes w outcome a)
  unfolding server_closes
  server_closes-IsIn x w outcome a h =
      said_nothing x w (Controller.persisted outcome a.tests) a
        (persisted-IsMarked [] a.tests.test outcome a.tests (unchanged-IsMarked x a h)) h

  -- From rest, a run is begun: it waits for the server, or its test runs at once.
  pub run_tests-Follows :
      (w : Moment F.R) (a : App F.R) → IsIn at_rest a → Follows at_rest (run_tests w a)
  unfolding run_tests
  run_tests-Follows w a h =
      let m = Controller.begin w.clocks a.config.pacing a.config.store_enabled a.peer a.tests in
      let off = is_some-none a.tests.test h.based.held in
      let v =
        begin-IsMarked w.clocks a.config.pacing a.config.store_enabled a.peer [] a.tests
          (record { marked = ap marks h.based.silent; under_way = off }) in
      let asked = record a { tests = m; opening = a.opening ++ a.peer ∷ [] } in
      let started = record a {
        tests = m;
        runs = a.runs ++ record { peer = a.peer; last_phase = idle } ∷ [];
      } in
      if_cases (Follows at_rest) (is_running a.tests) a _ (λ _. still at_rest a h)
        λ _.
          if_cases (Follows at_rest) a.config.store_enabled (settle_tests w asked)
            (settle_tests w started)
            (λ e. record {
              next = waits_for_server;
              move = server_asked;
              is_in =
                  settled-IsIn at_rest waits_for_server w taken asked v.marked
                    (record { lit = h.lit.lit }) refl
                    (record {
                      silent = refl;
                      openings =
                          length-append a.opening (a.peer ∷ [])
                          ∙ ap (λ (n : ℕ). n + 1) h.based.openings;
                      running = h.based.running;
                      held =
                          ap is_some v.under_way
                          ∙ ap (λ (b : Bool). is_some (if b then none else some a.tests.next_test))
                              e;
                      unforced = h.based.unforced;
                    });
            })
            λ e. record {
              next = runs_test;
              move = test_starts;
              is_in =
                  settled-IsIn at_rest runs_test w taken started v.marked
                    (record { lit = h.lit.lit }) refl
                    (record {
                      silent = refl;
                      openings = h.based.openings;
                      running = length-append a.runs _ ∙ ap (λ (n : ℕ). n + 1) h.based.running;
                      held =
                          ap is_some v.under_way
                          ∙ ap (λ (b : Bool). is_some (if b then none else some a.tests.next_test))
                              e;
                      unforced = h.based.unforced;
                    });
            }

  -- What is left of a list when an element is picked is one shorter.
  abbrev Sized : {A : Type 0} → List A → Option (A × List A) → Type 0
  Sized xs none = Unit
  Sized xs (some (y, rest)) = length xs ≡ suc (length rest)

  kept-Sized :
      {A : Type 0} (x : A) (xs : List A) (o : Option (A × List A))
      → Sized xs o
      → Sized (x ∷ xs) (elim o [ none ↦ none | some (y, ys) ↦ some (y, x ∷ ys) ])
  kept-Sized x xs none h = tt
  kept-Sized x xs (some (y, rest)) h = ap suc h

  pick-Sized : {A : Type 0} (n : ℕ) (xs : List A) → Sized xs (pick n xs)
  unfolding pick
  pick-Sized n [] = tt
  pick-Sized zero (x ∷ xs) = refl
  pick-Sized (suc n) (x ∷ xs) = kept-Sized x xs (pick n xs) (pick-Sized n xs)

  picked :
      {A : Type 0} (n : ℕ) (xs : List A) (q : A × List A)
      → pick n xs ≡ some q
      → length xs ≡ suc (length q.1)
  picked n xs q e = subst (Sized xs) e (pick-Sized n xs)

  answered_in :
      (x : Situation) (w : Moment F.R) (answer : Settled String) (peer : Option Peer)
      (rest : List (Option Peer)) (a : App F.R)
      → length a.opening ≡ suc (length rest)
      → IsIn x a
      → Follows x (
          settle_tests w (record a {
            opening = rest;
            tests = Controller.opened a.config.pacing answer a.tests;
            runs = a.runs ++ record { peer = peer; last_phase = idle } ∷ [];
          }))
  answered_in at_rest w answer peer rest a e h = absurd (ground (arith, e, h.based.openings))
  answered_in in_session w answer peer rest a e h = absurd (ground (arith, e, h.based.openings))
  answered_in runs_test w answer peer rest a e h = absurd (ground (arith, e, h.based.openings))
  answered_in waits_for_server w answer peer rest a e h =
      let v =
        opened-IsMarked [] a.tests.test a.config.pacing answer a.tests
          (unchanged-IsMarked waits_for_server a h) in
      record {
        next = runs_test;
        move = server_answers;
        is_in =
            settled-IsIn waits_for_server runs_test w [] _ v.marked (record { lit = h.lit.lit })
              refl
              (record {
                silent = refl;
                openings = omega (arith, e, h.based.openings);
                running = length-append a.runs _ ∙ ap (λ (n : ℕ). n + 1) h.based.running;
                held = ap is_some v.under_way;
                unforced = h.based.unforced;
              });
      }

  pub server_opens-Follows :
      (x : Situation) (w : Moment F.R) (n : ℕ) (answer : Settled String) (a : App F.R)
      → IsIn x a
      → Follows x (server_opens w n answer a)
  unfolding server_opens
  server_opens-Follows x w n answer a h =
      option_cases (Follows x) (pick n a.opening) a _ (λ _. still x a h)
        λ q e. answered_in x w answer q.0 q.1 a (picked n a.opening q e) h

  test_shows-IsIn_of :
      (x : Situation) (w : Moment F.R) (phase : Stage) (m : TestController F.R) (r : Running)
      (rest : List Running) (a : App F.R)
      → IsMarked [] a.tests.test m ⊎ IsMarked (holds true ∷ []) a.tests.test m
      → length a.runs ≡ suc (length rest)
      → IsIn x a
      → IsIn x
          (settle_tests w (record a { tests = m; runs = record r { last_phase = phase } ∷ rest }))
  test_shows-IsIn_of at_rest w phase m r rest a v e h = absurd (ground (arith, e, h.based.running))
  test_shows-IsIn_of in_session w phase m r rest a v e h =
      absurd (ground (arith, e, h.based.running))
  test_shows-IsIn_of waits_for_server w phase m r rest a v e h =
      absurd (ground (arith, e, h.based.running))
  test_shows-IsIn_of runs_test w phase m r rest a (inl v) e h =
      settled-IsIn runs_test runs_test w [] _ v.marked (record { lit = h.lit.lit }) refl
        (record {
          silent = refl;
          openings = h.based.openings;
          running = sym e ∙ h.based.running;
          held = ap is_some v.under_way ∙ h.based.held;
          unforced = h.based.unforced;
        })
  test_shows-IsIn_of runs_test w phase m r rest a (inr v) e h =
      settled-IsIn runs_test runs_test w (holds true ∷ []) _ v.marked (record { lit = h.lit.lit })
        refl
        (record {
          silent = refl;
          openings = h.based.openings;
          running = sym e ∙ h.based.running;
          held = ap is_some v.under_way ∙ h.based.held;
          unforced = h.based.unforced;
        })

  pub test_shows-IsIn :
      (x : Situation) (w : Moment F.R) (n : ℕ) (s : Snapshot F.R) (a : App F.R)
      → IsIn x a
      → IsIn x (test_shows w n s a)
  unfolding test_shows
  test_shows-IsIn x w n s a h =
      option_cases (IsIn x) (pick n a.runs) a _ (λ _. h)
        λ q e.
          let (phase, m) = Controller.on_update w.clocks s (q.0.last_phase, a.tests) in
          test_shows-IsIn_of x w phase m q.0 q.1 a
            (on_update-IsMarked [] a.tests.test w.clocks s q.0.last_phase a.tests
              (unchanged-IsMarked x a h))
            (picked n a.runs q e) h

  ended_in :
      (x : Situation) (w : Moment F.R) (s : Snapshot F.R) (r : Running) (rest : List Running)
      (a : App F.R)
      → length a.runs ≡ suc (length rest)
      → IsIn x a
      → Follows x (
          settle_tests w
            (record a { runs = rest; tests = Controller.ended w.clocks s r.peer a.tests }))
  ended_in at_rest w s r rest a e h = absurd (ground (arith, e, h.based.running))
  ended_in in_session w s r rest a e h = absurd (ground (arith, e, h.based.running))
  ended_in waits_for_server w s r rest a e h = absurd (ground (arith, e, h.based.running))
  ended_in runs_test w s r rest a e h =
      let v =
        ended-IsMarked [] a.tests.test w.clocks s r.peer a.tests
          (unchanged-IsMarked runs_test a h) in
      record {
        next = at_rest;
        move = test_over;
        is_in =
            settled-IsIn runs_test at_rest w given_back _ v.marked (record { lit = h.lit.lit }) refl
              (record {
                silent = refl;
                openings = h.based.openings;
                running = omega (arith, e, h.based.running);
                held = ap is_some v.under_way;
                unforced = h.based.unforced;
              });
      }

  pub test_ends-Follows :
      (x : Situation) (w : Moment F.R) (n : ℕ) (s : Snapshot F.R) (a : App F.R)
      → IsIn x a
      → Follows x (test_ends w n s a)
  unfolding test_ends
  test_ends-Follows x w n s a h =
      option_cases (Follows x) (pick n a.runs) a _ (λ _. still x a h)
        λ q e. ended_in x w s q.0 q.1 a (picked n a.runs q e) h
